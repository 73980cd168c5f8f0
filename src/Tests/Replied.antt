-- ===== src/Tests/Replied.antt =====
-- The theorems on successful calls at runs against the server of Tests/Network.
use orcusapi.Base.{◌≡◌, refl, true, some, [], ok}
use orcusapi.Std.HashMap
use orcusapi.Std.Parse.{parse_signed}
use orcusapi.Json.{Json, lookup}
use orcusapi.World.{World, ◌>>=◌, read_methods}
use orcusapi.Account.{fetch_next_sequence_number}
use orcusapi.Spec.{function}
use orcusapi.Rpc.{call, get_ledger_entries, simulate_transaction, send_transaction, get_transaction}
use orcusapi.Txbuild.{
  as_str_field, build_unsigned_invoke_tx, envelope_to_base64, parse_simulation,
  assemble_transaction, sign_transaction,
}
use orcusapi.Handlers.{should_use_get}
use orcusapi.Handlers.Invoke.{invoke_inner, submitted_hash, poll}
use orcusapi.Handlers.Invoke.Replies.{ShowsUnsigned, invoke_inner-ShowsUnsigned}
use orcusapi.Handlers.Invoke.Submitted.{HasSubmitted, invoke_inner-HasSubmitted}
use orcusapi.Tests.Fixtures.{sdk, sdk-IsLawful}
use orcusapi.Tests.Network.{
  chain, net, settings, warm, unsigned_headers, signed_headers, verify, sign-verifies,
}

abbrev replied : World
replied = (invoke_inner sdk chain net settings "get" [] unsigned_headers true warm).1

unsigned_run :
    (body : Json) × (invoke_inner sdk chain net settings "get" [] unsigned_headers true warm
      ≡ (ok body, replied))
unfolding invoke_inner ◌>>=◌ call HashMap.get lookup get_ledger_entries as_str_field
    simulate_transaction build_unsigned_invoke_tx envelope_to_base64 parse_simulation parse_signed
    should_use_get assemble_transaction function read_methods fetch_next_sequence_number
unsigned_run = (_, refl)

invoke_inner-ShowsUnsigned_example :
    ShowsUnsigned sdk chain net settings (λ _. ⊥) "get" "G00" warm unsigned_run.0 replied
invoke_inner-ShowsUnsigned_example =
    invoke_inner-ShowsUnsigned sdk chain net settings (λ _. ⊥) "get" [] unsigned_headers true
      unsigned_run.0 warm replied sdk-IsLawful tt refl unsigned_run.1

abbrev submitted : World
submitted = (invoke_inner sdk chain net settings "get" [] signed_headers true warm).1

signed_run :
    (body : Json) × (invoke_inner sdk chain net settings "get" [] signed_headers true warm
      ≡ (ok body, submitted))
unfolding invoke_inner ◌>>=◌ call HashMap.get lookup get_ledger_entries as_str_field
    simulate_transaction build_unsigned_invoke_tx envelope_to_base64 parse_simulation parse_signed
    should_use_get assemble_transaction function read_methods fetch_next_sequence_number
    sign_transaction submitted_hash poll send_transaction get_transaction
signed_run = (_, refl)

invoke_inner-HasSubmitted_example :
    HasSubmitted sdk chain net settings verify sign-verifies
      (λ _. ⊥)
      "get"
      "G00"
      (some "S")
      warm
      signed_run.0
      submitted
invoke_inner-HasSubmitted_example =
    invoke_inner-HasSubmitted sdk chain net settings verify sign-verifies (λ _. ⊥) "get" []
      signed_headers true signed_run.0 warm submitted sdk-IsLawful tt refl signed_run.1
