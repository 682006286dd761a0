-- ===== src/Processor/Rounds/Fees.antt =====
-- The calls that the shared steps make.
use evore_program.Prelude.{
  ℕ, ◌≡◌, ◌∙◌, refl, Bool, true, false, List, [], ◌∷◌, ◌++◌, ltb, ◌&&◌, if◌then◌else◌, append_assoc,
  append-nil, sym, ap,
}
use evore_program.Error.{ok}
use evore_program.OreApi.{Pubkey}
use evore_program.Runtime.{Runtime, Tx, invoke, transfer, Call, Seeds}
use evore_program.Runtime.Chain.{>>=-ok, call-ok}
use evore_program.Processor.Fees.{deploy_fee}
use evore_program.Processor.Loads.{when}
use evore_program.Processor.Rounds.{pay_fees}

-- The calls of `if c { invoke(call) }`.
abbrev pub calls_when : Bool → Call → List Call
calls_when c call = if c then call ∷ [] else []

pub invoke-calls :
    (rt : Runtime) (call : Call) (seeds : Seeds) (s : Tx) {u : Unit {0}} {t : Tx}
    → invoke rt call seeds s ≡ ok (u, t)
    → t.calls ≡ s.calls ++ call ∷ []
invoke-calls rt call seeds s h = let (_, _, e) = call-ok rt call seeds s h in ap (λ u. u.calls) e

pub when-calls :
    (rt : Runtime) (c : Bool) (call : Call) (seeds : Seeds) (s : Tx) {u : Unit {0}} {t : Tx}
    → when c (invoke rt call seeds) s ≡ ok (u, t)
    → t.calls ≡ s.calls ++ calls_when c call
when-calls rt true call seeds s h = let (ledger, _, e) = call-ok rt call seeds s h in rw e refl
when-calls rt false call seeds s {t = t} h = let e : t ≡ s = cc in rw e (sym (append-nil s.calls))

-- The fees that an autodeploy pays: none after the first of a round.
unfoldable pub fee_calls :
    (managed_miner_auth fee_collector signer : Pubkey) (first : Bool) (fee : ℕ) → List Call
fee_calls managed_miner_auth fee_collector signer first fee =
    calls_when (ltb 0 deploy_fee && first) (transfer managed_miner_auth fee_collector deploy_fee)
    ++ calls_when (ltb 0 fee && first) (transfer managed_miner_auth signer fee)

pub pay_fees-calls :
    (rt : Runtime) (managed_miner_auth fee_collector signer : Pubkey) (seeds : Seeds) (first : Bool)
    (fee : ℕ) (s : Tx) {u : Unit {0}} {t : Tx}
    → pay_fees rt managed_miner_auth fee_collector signer seeds first fee s ≡ ok (u, t)
    → t.calls ≡ s.calls ++ fee_calls managed_miner_auth fee_collector signer first fee
unfolding pay_fees fee_calls
pay_fees-calls rt managed_miner_auth fee_collector signer seeds first fee s h =
    let protocol = transfer managed_miner_auth fee_collector deploy_fee in
    let deployers = transfer managed_miner_auth signer fee in
    let (_, s', e, h1) =
      >>=-ok (when (ltb 0 deploy_fee && first) (invoke rt protocol seeds)) _ s h in
    when-calls rt (ltb 0 fee && first) deployers seeds s' h1
    ∙ ap (λ c. c ++ calls_when (ltb 0 fee && first) deployers)
        (when-calls rt (ltb 0 deploy_fee && first) protocol seeds s e)
    ∙ append_assoc s.calls _ _
