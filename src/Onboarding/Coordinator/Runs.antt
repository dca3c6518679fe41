-- ===== src/Onboarding/Coordinator/Runs.antt =====
-- What holds after an action, by what holds before it, for the proofs on the coordinator of onboarding.py.
use coinbase_amoled_terminal.Prelude.{
  ◌≡◌, refl, Bool, true, false, List, [], ◌∷◌, Result, ok, err, if◌then◌else◌,
}
use coinbase_amoled_terminal.Onboarding.Coordinator.Act.{
  Journal, Disk, Site, SetupError, Act, continue, ◌>>=◌, look, look_held, demand, draw, may_raise,
  attempt,
}
use coinbase_amoled_terminal.Onboarding.Coordinator.Stage.{or_else, guarded}

-- A statement on a state goes by the disk and the journal object.
abbrev pub Statement : Type 1
Statement = Disk → Journal → Type 0

abbrev pub After : {A : Type 0} → Statement → Statement → Result SetupError A → Site → Type 0
After Q R (ok _) s = Q s.disk s.held
After Q R (err _) s = R s.disk s.held

-- From `P` the action comes to `Q`, or raises in `R`.
abbrev pub Runs : {A : Type 0} → Statement → Act A → Statement → Statement → Type 0
Runs P m Q R = (s : Site) → P s.disk s.held → After Q R (m s).0 (m s).1

abbrev pub Keeps : {A : Type 0} → Statement → Act A → Type 0
Keeps P m = Runs P m P P

module _ {A B : Type 0} (P Q Q' R : Statement) where
  continue-Runs :
      (next : A → Act B) (r : Result SetupError A) (s : Site)
      → ((a : A) → Runs Q (next a) Q' R)
      → After Q R r s
      → After Q' R (continue next r s).0 (continue next r s).1
  continue-Runs next (ok a) s h p = h a s p
  continue-Runs next (err e) s h p = p

  pub bind-Runs :
      (m : Act A) (next : A → Act B)
      → Runs P m Q R
      → ((a : A) → Runs Q (next a) Q' R)
      → Runs P (m >>= next) Q' R
  unfolding ◌>>=◌
  bind-Runs m next h k s p = continue-Runs next (m s).0 (m s).1 k (h s p)

module _ {A B : Type 0} (P : Statement) where
  pub bind-Keeps :
      (m : Act A) (next : A → Act B)
      → Keeps P m
      → ((a : A) → Keeps P (next a))
      → Keeps P (m >>= next)
  bind-Keeps m next h k = bind-Runs P P P P m next h k

module _ {A : Type 0} (P Q R : Statement) where
  -- The rest of an action goes on with the disk as it is.
  pub look-Runs :
      (next : Disk → Act A)
      → ((s : Site) → P s.disk s.held → After Q R (next s.disk s).0 (next s.disk s).1)
      → Runs P (look >>= next) Q R
  unfolding ◌>>=◌
  look-Runs next h = h

  pub look_held-Runs :
      (next : Journal → Act A)
      → ((s : Site) → P s.disk s.held → After Q R (next s.held s).0 (next s.held s).1)
      → Runs P (look_held >>= next) Q R
  unfolding ◌>>=◌
  look_held-Runs next h = h

module _ (P : Statement) where
  draw-Keeps : (e : SetupError) (luck : List Bool) → Keeps P (draw e luck)
  draw-Keeps e [] s p = p
  draw-Keeps e (true ∷ luck) s p = p
  draw-Keeps e (false ∷ luck) s p = p

  pub may_raise-Keeps : (e : SetupError) → Keeps P (may_raise e)
  unfolding may_raise
  may_raise-Keeps e s p = draw-Keeps e s.luck s p

  pub if-Keeps :
      {A : Type 0} (b : Bool) (m n : Act A) → Keeps P m → Keeps P n → Keeps P (if b then m else n)
  if-Keeps true m n h k = h
  if-Keeps false m n h k = k

  pub demand-Keeps : (b : Bool) (e : SetupError) → Keeps P (demand b e)
  unfolding demand
  demand-Keeps true e s p = p
  demand-Keeps false e s p = p

module _ (P Q R : Statement) where
  after_any : (r : Result SetupError (Unit {0})) (s : Site) → After Q Q r s → Q s.disk s.held
  after_any (ok _) s q = q
  after_any (err _) s q = q

  pub attempt-Runs : (m : Act (Unit {0})) → Runs P m Q Q → Runs P (attempt m) Q R
  unfolding attempt
  attempt-Runs m h s p = after_any (m s).0 (m s).1 (h s p)

  or_else-Runs :
      (handler : SetupError → Act (Unit {0})) (r : Result SetupError (Unit {0})) (s : Site)
      → ((e : SetupError) → Runs R (handler e) Q R)
      → After Q R r s
      → After Q R (or_else r handler s).0 (or_else r handler s).1
  or_else-Runs handler (ok _) s h q = q
  or_else-Runs handler (err e) s h q = h e s q

  pub guarded-Runs :
      (m : Act (Unit {0})) (handler : SetupError → Act (Unit {0}))
      → Runs P m Q R
      → ((e : SetupError) → Runs R (handler e) Q R)
      → Runs P (guarded m handler) Q R
  unfolding guarded
  guarded-Runs m handler h k s p = or_else-Runs handler (m s).0 (m s).1 k (h s p)

module _ (P Q R Q' R' : Statement) where
  After-weaker :
      {A : Type 0} (r : Result SetupError A) (s : Site)
      → ((d : Disk) (h : Journal) → Q d h → Q' d h)
      → ((d : Disk) (h : Journal) → R d h → R' d h)
      → After Q R r s
      → After Q' R' r s
  After-weaker (ok _) s f g q = f s.disk s.held q
  After-weaker (err _) s f g q = g s.disk s.held q

  pub weaker-Runs :
      {A : Type 0} (m : Act A)
      → Runs P m Q R
      → ((d : Disk) (h : Journal) → Q d h → Q' d h)
      → ((d : Disk) (h : Journal) → R d h → R' d h)
      → Runs P m Q' R'
  weaker-Runs m k f g s p = After-weaker (m s).0 (m s).1 f g (k s p)

-- An action goes on only where the demand holds.
pub demand-Runs :
    (P : Statement) (b : Bool) (e : SetupError) → Runs P (demand b e) (λ d h. P d h × (b ≡ true)) P
unfolding demand
demand-Runs P true e s p = (p, refl)
demand-Runs P false e s p = p
