-- ===== src/Session/Ends.antt =====
-- Calls that leave no transaction open, and that do not raise the guard's exception for one.
use instructional_agent_mvp.Prelude.{◌≡◌, ◌≢◌, refl, false, inl, inr, Bool-cases}
use instructional_agent_mvp.Session.{
  Session, open_transaction, Result, ok, raised, Action, follow, commit, rollback,
}

abbrev pub Harmless : {A : Type 0} → Result A → Type 0
Harmless (ok a) = Unit
Harmless (raised e) = e ≢ open_transaction

-- After a value no transaction is open; an exception is another one than the guard's.
abbrev pub Ends : {A : Type 0} → Result A × Session → Type 0
Ends (ok a, s) = s.in_transaction ≡ false
Ends (raised e, s) = e ≢ open_transaction

pub Ends-follow :
    {A B : Type 0} (r : Result A × Session) (f : A → Action B)
    → Harmless r.0
    → ((a : A) (s : Session) → Ends (f a s))
    → Ends (follow f r)
Ends-follow (ok a, s) f h k = k a s
Ends-follow (raised e, s) f h k = h

-- The same where what follows needs that no transaction is open.
pub Ends-follow_closed :
    {A B : Type 0} (r : Result A × Session) (f : A → Action B)
    → Ends r
    → ((a : A) (s : Session) → s.in_transaction ≡ false → Ends (f a s))
    → Ends (follow f r)
Ends-follow_closed (ok a, s) f h k = k a s h
Ends-follow_closed (raised e, s) f h k = h

pub commit_closes : (s : Session) → (commit s).1.in_transaction ≡ false
commit_closes s = elim (Bool-cases s.in_transaction) [ inl e ↦ rw e refl | inr e ↦ rw e refl ]

pub rollback_closes : (s : Session) → (rollback s).1.in_transaction ≡ false
rollback_closes s = elim (Bool-cases s.in_transaction) [ inl e ↦ rw e refl | inr e ↦ rw e refl ]
