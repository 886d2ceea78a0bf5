-- ===== src/Script/Report.antt =====
-- What a piece of the executor did: the messages that it sent to `rq.outputCh`, in order, and the
-- error that it returned. A `do` block is a chain of `if err := …; err != nil { return err }`.
use simple_ci.Base.{
  ◌≡◌, refl, String, Option, none, some, List, [], ◌∷◌, ◌++◌, append_assoc, ◌↔◌, arith,
}
use simple_ci.Base.Errors.{Error}

pub record Report : Type 0 where
  pub output : List String
  pub error : Option Error

abbrev pub pass : Report
pass = record { output = []; error = none }

-- `rq.outputCh <- m`
abbrev pub send : String → Report
send m = record { output = m ∷ []; error = none }

abbrev pub fail : Error → Report
fail e = record { output = []; error = some e }

-- `if err != nil { return err }`
abbrev pub check : Option Error → Report
check e = record { output = []; error = e }

abbrev continue : List String → Option Error → Report → Report
continue out (some e) next = record { output = out; error = some e }
continue out none next = record { output = out ++ next.output; error = next.error }

infixl 5 ◌>>◌
abbrev pub ◌>>◌ : Report → Report → Report
r >> next = continue r.output r.error next

pub >>_assoc : (a b c : Report) → ((a >> b) >> c) ≡ (a >> (b >> c))
>>_assoc a b c = go a.error b.error
  where
    go :
        (e f : Option Error)
        → continue
            (continue a.output e (record { output = b.output; error = f })).output
            (continue a.output e (record { output = b.output; error = f })).error
            c
          ≡ continue a.output e (continue b.output f c)
    go (some x) f = refl
    go none (some y) = refl
    go none none = rw append_assoc

-- A chain passes exactly when all of its parts do.
pub >>_passes : (a b : Report) → ((a >> b).error ≡ none) ↔ ((a.error ≡ none) × (b.error ≡ none))
>>_passes a b = go a.error
  where
    go :
        (e : Option Error)
        → ((continue a.output e b).error ≡ none) ↔ ((e ≡ none) × (b.error ≡ none))
    go none = ((λ h. (refl, h)), λ h. h.1)
    go (some x) = ((λ h. absurd (cc)), λ h. absurd (cc (h.0)))

-- After a failure nothing more runs.
pub >>_stops : (a b : Report) {e : Error} → a.error ≡ some e → (a >> b) ≡ a
>>_stops a b h = rw (h, ◌>>◌) (ground arith)
