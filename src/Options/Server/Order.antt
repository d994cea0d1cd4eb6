-- ===== src/Options/Server/Order.antt =====
-- `--loop` and `--count` in either order.
use Prim.Native.String.{String}
use udp_test.Base.{ℕ, Bool, ◌≡◌, refl, true, none, some, [], ◌∷◌, returned, thrown}
use udp_test.Options.{
  loop_with_count, parse_count, is_help_flag, option_key, attached, option_value, is_dashed,
  starts_with_digit,
}
use udp_test.Options.Arguments.{checked_step, argument_loop}
use udp_test.Options.Server.{ServerOptions, loop_step, server_step}

-- `--loop` behind `--count` is refused, and in front of it is accepted, with both set: whatever the
-- options before, as long as they have no count, and whatever the count.
pub argument_loop-order :
    (windows : Bool) (o : ServerOptions) (text : String) (n : ℕ)
    → o.batch_count ≡ none
    → parse_count text ≡ returned n
    → (argument_loop (server_step windows) ("--count" ∷ text ∷ "--loop" ∷ []) o
        ≡ thrown loop_with_count)
      × (argument_loop (server_step windows) ("--loop" ∷ "--count" ∷ text ∷ []) o
          ≡ returned (record o { loop = true; batch_count = some n }))
unfolding argument_loop checked_step server_step loop_step is_help_flag is_dashed option_key
    attached option_value starts_with_digit
argument_loop-order windows o text n unset e = (rw e refl, rw (unset, e) refl)
