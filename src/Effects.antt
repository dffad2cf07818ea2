-- ===== src/Effects.antt =====
-- Methods of a service: they may fail, and what they did before an error stays done, so the state
-- comes back beside the error. A site is a database whose calls fail where the next of `faults`
-- says so, beside a remote interface that is a script of replies with a log of the calls.
use rcp_server.Base.{◌≡◌, refl, Bool, false, List, [], ◌∷◌, if◌then◌else◌, ◌⊎◌, inl, inr}

pub data Result (E A : Type 0) : Type 0 where
  ok : A → Result E A
  err : E → Result E A

module _ {W E : Type 0} where
  abbrev pub pure : {A : Type 0} → A → W → Result E A × W
  pure a w = (ok a, w)

  abbrev pub fail : {A : Type 0} → E → W → Result E A × W
  fail e w = (err e, w)

  abbrev pub continue : {A B : Type 0} → (A → W → Result E B × W) → Result E A × W → Result E B × W
  continue k (ok a, w) = k a w
  continue k (err e, w) = (err e, w)

  infixl 30 ◌>>=◌
  abbrev pub ◌>>=◌ :
      {A B : Type 0} → (W → Result E A × W) → (A → W → Result E B × W) → W → Result E B × W
  (m >>= k) w = continue k (m w)

pub Result-cases :
    {E A : Type 0} (r : Result E A) → ((a : A) × (r ≡ ok a)) ⊎ ((e : E) × (r ≡ err e))
Result-cases (ok a) = inl (a, refl)
Result-cases (err e) = inr (e, refl)

abbrev pub next_fault : List Bool → Bool × List Bool
next_fault [] = (false, [])
next_fault (f ∷ fs) = (f, fs)

-- a database, whose coming calls fail where `faults` says so
pub record Stored (R : Type 0) : Type 0 where
  pub rows : R
  pub faults : List Bool

-- a remote interface: the replies that it will give, and the log of the calls
pub record Remote (C P : Type 0) : Type 0 where
  pub replies : List P
  pub calls : List (C × P)

module _ {R E A : Type 0} where
  -- a query that works, or leaves the rows as they were
  abbrev pub after_query : Stored R → Result E (A × R) → Result E A × Stored R
  after_query s (ok (a, rows)) = (ok a, record s { rows = rows })
  after_query s (err e) = (err e, s)

  abbrev pub query : E → (R → Result E (A × R)) → Stored R → Result E A × Stored R
  query e run s =
      let (failed, rest) = next_fault s.faults in
      let t : Stored R = record s { faults = rest } in
      if failed then (err e, t) else after_query t (run s.rows)

-- The next reply; a script that has ended gives the one for that.
abbrev pub next_reply : {P : Type 0} → P → List P → P × List P
next_reply p [] = (p, [])
next_reply p (r ∷ rs) = (r, rs)

abbrev pub ask : {C P : Type 0} → P → C → Remote C P → P × Remote C P
ask ended c s =
    let (r, rest) = next_reply ended s.replies in
    (r, record s { replies = rest; calls = (c, r) ∷ s.calls })

pub record Site (R C P : Type 0) : Type 0 where
  pub stored : Stored R
  pub remote : Remote C P

module _ {R C P E A : Type 0} where
  abbrev pub put_stored : Site R C P → Result E A × Stored R → Result E A × Site R C P
  put_stored s (r, stored) = (r, record s { stored = stored })

  abbrev pub on_stored : (Stored R → Result E A × Stored R) → Site R C P → Result E A × Site R C P
  on_stored m s = put_stored s (m s.stored)
