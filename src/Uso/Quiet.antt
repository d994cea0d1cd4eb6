-- ===== src/Uso/Quiet.antt =====
-- The calls of an attempt that send nothing.
use udp_test.Base.{
  ℕ, ◌≡◌, inr, refl, ◌∙◌, Bool, true, false, not, ◌&&◌, Option, none, some, List, ◌∷◌, ◌++◌,
  if◌then◌else◌, ◌==◌,
}
use udp_test.Crc.{Bytes}
use udp_test.Windows.{
  Asio, SendControl, udp_send_msg_size, Winsock, Process, Action, ◌>>=◌, call, pure, Statics,
}
use udp_test.Windows.Ends.{Ends, bind-Ends, if-Ends}
use udp_test.Uso.{
  UsoThrow, resolve_set_udp_send_message_size, configure_udp_send_segment_size, find_ws2,
  look_for_set_size, error_unless, resolve_wsasendmsg, look_for_sendmsg,
}
use udp_test.Uso.Route.{source_address_is_unspecified, ipv4_interface_index}
use udp_test.Uso.Message.{source_control, v4_pktinfo}
use udp_test.Uso.Wire.{Wire, size_of, Never, IsSizeSet, At, Keeps, IsSame-At, call-Keeps, Behaves}

module _ {W : Type 0} (wire : Wire W) (mss : ℕ) (ds : List Bytes) where
  bind-Keeps :
      {A B : Type 0} (m : Action UsoThrow (Process W) A) (f : A → Action UsoThrow (Process W) B)
      → Keeps wire mss ds m
      → ((a : A) → Keeps wire mss ds (f a))
      → Keeps wire mss ds (m >>= f)
  bind-Keeps {A} {B} m f h k p at =
      bind-Ends (λ (a : A) p'. At wire mss ds p'.world) (λ (b : B) p'. At wire mss ds p'.world)
        Never m f p (h p at) k

  if-Keeps :
      {A : Type 0} (b : Bool) (m n : Action UsoThrow (Process W) A)
      → Keeps wire mss ds m
      → Keeps wire mss ds n
      → Keeps wire mss ds (if b then m else n)
  if-Keeps true m n h k = h
  if-Keeps false m n h k = k

  size-Keeps :
      (n : ℕ)
      → n ≡ mss
      → (f : W → Bool × W) → ((w : W) → IsSizeSet wire n w (f w))
      → Keeps wire mss ds (call f)
  size-Keeps n n_mss f h p at = go (f p.world) (h p.world)
    where
      go : (o : Bool × W) → IsSizeSet wire n p.world o → At wire mss ds o.1
      go (false, w) same = IsSame-At wire mss ds p.world w same at
      go (true, w) (s, size) = (s ∙ at.0, inr (size ∙ n_mss))

  -- A control message that says no segment size, and the control messages of a source.
  abbrev IsSource : SendControl → Process W → Type 0
  IsSource control p =
      ((cs : List SendControl) (n : ℕ) → size_of (control ∷ cs) n ≡ size_of cs n)
      × At wire mss ds p.world

  abbrev pub AreSources : List SendControl → Process W → Type 0
  AreSources controls p =
      ((cs : List SendControl) (n : ℕ) → size_of (controls ++ cs) n ≡ size_of cs n)
      × At wire mss ds p.world

  module _ (os : Winsock W) (sock limit : ℕ) (behaves : Behaves os wire sock limit) where
    find_ws2-Keeps : Keeps wire mss ds (find_ws2 os)
    find_ws2-Keeps =
        bind-Keeps (call os.get_ws2) _ (call-Keeps wire mss ds os.get_ws2 behaves.get_ws2) (λ ws2.
          if-Keeps (not ws2) (call os.load_ws2) (pure ws2)
            (call-Keeps wire mss ds os.load_ws2 behaves.load_ws2) (λ p at. at))

    look_for_set_size-Keeps :
        (statics : Statics) (ws2 : Bool) → Keeps wire mss ds (look_for_set_size os statics ws2)
    look_for_set_size-Keeps statics false p at = at
    look_for_set_size-Keeps statics true p at =
        call-Keeps wire mss ds os.get_set_size behaves.get_set_size p at

    resolve_set_size-Keeps : Keeps wire mss ds (resolve_set_udp_send_message_size os)
    unfolding resolve_set_udp_send_message_size
    resolve_set_size-Keeps p at =
        if-Keeps p.statics.set_size_resolved (pure p.statics.set_size_found) _ (λ q h. h)
          (λ q h.
            bind-Keeps (find_ws2 os) (look_for_set_size os p.statics) find_ws2-Keeps
              (look_for_set_size-Keeps p.statics) _ h)
          p at

    error_unless-Keeps : (ok : Bool) → Keeps wire mss ds (error_unless os ok)
    error_unless-Keeps true p at = at
    error_unless-Keeps false p at = at

    pub configure-Keeps :
        (n : ℕ) → n ≡ mss → Keeps wire mss ds (configure_udp_send_segment_size os sock n)
    unfolding configure_udp_send_segment_size
    configure-Keeps n n_mss =
        bind-Keeps (resolve_set_udp_send_message_size os >>= _) (error_unless os)
          (bind-Keeps (resolve_set_udp_send_message_size os) _ resolve_set_size-Keeps (λ found.
            if-Keeps found (call (os.set_size sock n))
              (call (os.setsockopt sock udp_send_msg_size n))
              (size-Keeps n n_mss (os.set_size sock n) (behaves.set_size n))
              (size-Keeps n n_mss (os.setsockopt sock udp_send_msg_size n) (behaves.setsockopt n))))
          error_unless-Keeps

    pub resolve_wsasendmsg-Keeps : Keeps wire mss ds (resolve_wsasendmsg os sock)
    unfolding resolve_wsasendmsg
    resolve_wsasendmsg-Keeps p at =
        if-Keeps p.statics.sendmsg_resolved (pure p.statics.sendmsg_found) _ (λ q h. h)
          (bind-Keeps (call (os.get_sendmsg sock)) (look_for_sendmsg os p.statics)
            (call-Keeps wire mss ds (os.get_sendmsg sock) behaves.get_sendmsg) looked_for)
          p at
      where
        looked_for : (o : Option Bool) → Keeps wire mss ds (look_for_sendmsg os p.statics o)
        looked_for none q h = h
        looked_for (some fn) q h = h

    module _ {Address V4 V6 : Type 0} (asio : Asio Address V4 V6) where
      interface_index-Keeps : (v4 : V4) → Keeps wire mss ds (ipv4_interface_index asio os v4)
      unfolding ipv4_interface_index
      interface_index-Keeps v4 =
          if-Keeps (asio.v4_is_unspecified v4) (pure none) _ (λ p at. at)
            (call-Keeps wire mss ds (os.best_interface _) (behaves.best_interface _))

      v4_pktinfo-IsSource :
          (index : ℕ) (source : Address) (p : Process W)
          → At wire mss ds p.world
          → Ends IsSource Never (v4_pktinfo os asio index source p)
      v4_pktinfo-IsSource index source p at =
          if-Ends IsSource Never (not (index == 0)) _ _ p (λ given. ((λ cs n. refl), at))
            (λ none.
              bind-Ends (λ (o : Option ℕ) q. At wire mss ds q.world) IsSource Never
                (ipv4_interface_index asio os (asio.to_v4 source)) _ p
                (interface_index-Keeps (asio.to_v4 source) p at) (λ found q h. ((λ cs n. refl), h)))

      pub source_control-AreSources :
          (include : Bool) (index : ℕ) (source : Address) (p : Process W)
          → At wire mss ds p.world
          → Ends AreSources Never (source_control os asio include index source p)
      unfolding source_control
      source_control-AreSources include index source p at =
          if-Ends AreSources Never (include && not (source_address_is_unspecified asio source)) _ _
            p
            (λ wanted.
              if-Ends AreSources Never (asio.is_v6 source) _ _ p (λ v6. ((λ cs n. refl), at))
                (λ v4.
                  bind-Ends IsSource AreSources Never (v4_pktinfo os asio index source) _ p
                    (v4_pktinfo-IsSource index source p at) (λ control q h. h)))
            (λ unwanted. ((λ cs n. refl), at))
