-- ===== src/Client/Program.antt =====
-- The client from its command line to the datagrams that it sends.
use Prim.Native.String.{String}
use udp_test.Base.{ℕ, ◌^◌, ◌<◌, ◌≡◌, Bool, some, List, Result, returned}
use udp_test.Crc.{Bytes}
use udp_test.Options.Client.{ClientOptions, default_client_options, parse_client_options}
use udp_test.Options.Client.Accepted.{parse_client_options-IsSendable}
use udp_test.Client.{run_client}
use udp_test.Client.Segments.{SendsAll}
use udp_test.Client.Run.{Ran, run_client-Ran}

module _ {E W : Type 0} (send_to : Bytes → W → Result E (ℕ × W)) (sent : W → List Bytes)
    (works : SendsAll send_to sent) {S : Type 0} (draw : S → ℕ × S) where
  -- With options that `parse_client_options` has accepted, whatever the arguments, and a count
  -- below 2 ^ 32, on a socket that sends each datagram whole, the run returns, and has sent the
  -- datagrams of as many complete batches as the count says, of the size given, numbered from 0 in
  -- order.
  pub run_client-accepted :
      (windows : Bool) (args : List String) (o : ClientOptions) (s : S) (w : W)
      → parse_client_options windows args default_client_options ≡ returned (some o)
      → o.batch_count < 2 ^ 32
      → Ran send_to sent works draw o.batch_count o.batch_size o.mss 0 o.batch_count w
          (run_client send_to draw o.batch_size o.batch_count o.mss s w)
  run_client-accepted windows args o s w accepted fits =
      let sendable = parse_client_options-IsSendable windows args o accepted in
      run_client-Ran send_to sent works draw o.batch_size o.batch_count o.mss s w
        sendable.holds_header sendable.within fits
