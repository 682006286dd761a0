-- ===== src/Processor/Bank.antt =====
-- A sample runtime whose transfers move lamports.
use evore_program.Prelude.{
  ℕ, ◌+◌, ◌-◌, ◌≡◌, ◌≢◌, Bool-cases, inl, inr, arith, true, leb, if◌then◌else◌,
}
use evore_program.Error.{ok, err, external, Result}
use evore_program.Runtime.{
  Ledger, Call, Seeds, Runtime, AsAccountReads, TransfersMove, update, transfer,
}
use evore_program.Processor.Sample.{sample, sample-AsAccountReads, ledger}

-- The accounts after a transfer.
abbrev pub moved : Ledger → (from to n : ℕ) → Ledger
moved ledger from to n =
    let paid =
      update ledger from (record (ledger from) { lamports = (ledger from).lamports - n }) in
    update paid to (record (paid to) { lamports = (paid to).lamports + n })

-- A transfer moves lamports, where there are enough of them.
abbrev bank_invoke : Call → Seeds → Ledger → Result Ledger
bank_invoke (transfer from to n) seeds ledger =
    if leb n (ledger from).lamports then ok (moved ledger from to n) else err (external 1)
bank_invoke _ seeds ledger = ok ledger

abbrev pub bank : Runtime
bank = record sample { invoke_signed = bank_invoke }

pub bank-AsAccountReads : AsAccountReads bank
bank-AsAccountReads = sample-AsAccountReads

moved-moves :
    (l : Ledger) (from to n : ℕ)
    → from ≢ to
    → leb n (l from).lamports ≡ true
    → ((moved l from to n from).lamports + n ≡ (l from).lamports)
      × ((moved l from to n to).lamports ≡ (l to).lamports + n)
moved-moves l from to n ne h = ground arith

moved-frame : (l : Ledger) (from to n k : ℕ) → k ≢ from → k ≢ to → moved l from to n k ≡ l k
moved-frame l from to n k nf nt = ground arith

pub bank-TransfersMove : TransfersMove bank
bank-TransfersMove from to n seeds before after ne h =
    elim (Bool-cases (leb n (before from).lamports)) [
      | inl e ↦
          (let h' = rw e at h in
            let same : moved before from to n ≡ after = cc in
            let (paid, received) = moved-moves before from to n ne e in
            rw (← same) (paid, received, moved-frame before from to n))
      | inr e ↦ (let h' = rw e at h in cc)
    ]
