-- ===== src/Agent/Pipeline/Rules.antt =====
-- The rules for the steps that the pipeline is made of.
use straitsx.Prelude.{◌≡◌, refl, Option, none, some}
use straitsx.Ledger.State.{Ledger, Reply, sent, failed}
use straitsx.Agent.Step.{Holds, Triple, modify-Triple, lift}
use straitsx.Agent.Run.{RunRecord}
use straitsx.Agent.Pipeline.{World, Run, on_run, call_ledger, ledger_reply}
use straitsx.Agent.Pipeline.Recorded.{OnSuccess}

abbrev pub Anywhere : World → Type 0
Anywhere w = Unit

pub any-Triple : {A : Type 0} (P : World → Type 0) (m : Run A) → Triple P m (λ a. Anywhere) Anywhere
any-Triple {A} P m = record { from = λ w h. anywhere (m w) }
  where
    anywhere : (r : World × Option A) → Holds (λ a. Anywhere) Anywhere r
    anywhere (w, none) = tt
    anywhere (w, some a) = tt

pub on_run-Triple :
    {P E : World → Type 0} (f : RunRecord → RunRecord) {Q : World → Type 0}
    → ((w : World) → P w → Q (record w { run = f w.run }))
    → Triple P (on_run f) (λ u. Q) E
unfolding on_run
on_run-Triple f step = modify-Triple (λ w. record w { run = f w.run }) step

reply-Holds :
    {A : Type 0} (Q : World → Type 0) (w : World) (r : Ledger × Reply A)
    → OnSuccess (λ l. Q (record w { ledger = l })) r
    → Holds (λ u. Q) Anywhere (ledger_reply w r)
reply-Holds Q w (l, sent status a) h = h
reply-Holds Q w (l, failed status code) h = tt

pub call_ledger-Triple :
    {A : Type 0} {P : World → Type 0} (Q : World → Type 0) (f : Ledger → Ledger × Reply A)
    → ((w : World) → P w → OnSuccess (λ l. Q (record w { ledger = l })) (f w.ledger))
    → Triple P (call_ledger f) (λ u. Q) Anywhere
unfolding call_ledger
call_ledger-Triple Q f step = record { from = λ w h. reply-Holds Q w (f w.ledger) (step w h) }

pub lift-Triple :
    {A : Type 0} {P : World → Type 0} (o : Option A)
    → Triple P (lift o) (λ a w. P w × (o ≡ some a)) Anywhere
unfolding lift
lift-Triple none = record { from = λ w h. tt }
lift-Triple (some a) = record { from = λ w h. (h, refl) }
