-- ===== src/Scope/Names.antt =====
-- The C names that `scopedName` makes are fresh.
use three.Base.{
  ℕ, suc, ◌+◌, ◌≤◌, ◌<◌, ◌≡◌, ◌≢◌, refl, sym, ◌∙◌, ap, ap₂, subst, List, [], ◌∷◌, ◌++◌, tail_eq,
  head_eq, append-cancel, All-append_right, ◌==◌, if◌then◌else◌, All, Bytes, bytes_eq, bytes_eq_iff,
  decimal, decimal-injective, IsDecimal, decimal-IsDecimal, length, Option, none, some, Outcome, ok,
  ◌>>=◌, arith, Bool-cases, inl, inr,
}
use Prim.Native.Nat.{◌^◌}
use three.Scope.{Frame, find, insert, add_one, counter, numbered, scoped_name_in}

-- The map law of the counters.
pub find-insert {ℓ} :
    {A : Type ℓ} (k j : Bytes) (v : A) (map : List (Bytes × A))
    → find j (insert k v map) ≡ (if bytes_eq k j then some v else find j map)
unfolding find insert
find-insert k j v [] = refl
find-insert k j v ((i, w) ∷ map) =
    ground (arith, bytes_eq_iff k j, bytes_eq_iff i k, bytes_eq_iff i j, find-insert k j v map)

counter-insert :
    (k j : Bytes) (n : ℕ) (names : List (Bytes × ℕ))
    → counter j (insert k n names) ≡ (if bytes_eq k j then n else counter j names)
unfolding counter
counter-insert k j n names = elim (Bool-cases (bytes_eq k j)) [
  | inl same ↦ rw (find-insert k j n names, counter) (rw same)
  | inr other ↦ rw (find-insert k j n names, counter) (rw other)
]

-- No underscore stands in the text.
abbrev IsFree : Bytes → Type 0
IsFree = All (λ c. c ≢ b'_')

digits-IsFree : (d : Bytes) → IsDecimal d → IsFree d
digits-IsFree [] h = tt
digits-IsFree (c ∷ d) h = ((λ e. omega (arith, h.0.0, h.0.1)), digits-IsFree d h.1)

not_separated : (m d e : Bytes) → IsFree d → d ≢ m ++ b'_' ∷ e
not_separated m d e free h =
    (All-append_right (λ c. c ≢ b'_') m (b'_' ∷ e) (subst IsFree h free)).0 refl

-- The last underscore splits the text.
split_at_underscore :
    (m n d e : Bytes) → IsFree d → IsFree e → m ++ b'_' ∷ d ≡ n ++ b'_' ∷ e → (m ≡ n) × (d ≡ e)
split_at_underscore [] [] d e fd fe h = (refl, tail_eq _ _ _ _ h)
split_at_underscore [] (c ∷ n) d e fd fe h = absurd (not_separated n d e fd (tail_eq _ _ _ _ h))
split_at_underscore (c ∷ m) [] d e fd fe h =
    absurd (not_separated m e d fe (sym (tail_eq _ _ _ _ h)))
split_at_underscore (c ∷ m) (x ∷ n) d e fd fe h =
    let (front, behind) = split_at_underscore m n d e fd fe (tail_eq _ _ _ _ h) in
    (ap₂ (λ y ys. y ∷ ys) (head_eq _ _ _ _ h) front, behind)

-- Two scoped names of one base name are equal only if the names and the numbers in them are equal.
pub numbered-injective :
    (base m n : Bytes) (i j : ℕ) → numbered base m i ≡ numbered base n j → (m ≡ n) × (i ≡ j)
unfolding numbered
numbered-injective base m n i j e =
    let tails = tail_eq _ _ _ _ (append-cancel base _ _ e) in
    let (names, digits) =
      split_at_underscore m n (decimal i) (decimal j) (digits-IsFree _ (decimal-IsDecimal i))
        (digits-IsFree _ (decimal-IsDecimal j)) tails in
    (names, decimal-injective i j digits)

-- The scope whose counters `scopedName` uses: the first one with a base name.
abbrev pub owner : {V : Type 0} → List (Frame V) → Option (Frame V)
owner [] = none
owner (s ∷ ps) = if length s.scoped_basename == 0 then owner ps else some s

-- The names of several calls of `scopedName` in a row.
unfoldable pub scoped_names_in :
    {V : Type 0} → List Bytes → List (Frame V) → Outcome (List Bytes × List (Frame V))
unfolding scoped_name_in
scoped_names_in [] fs = ok ([], fs)
scoped_names_in (name ∷ names) fs = do
  (x, gs) ← scoped_name_in name fs
  (xs, hs) ← scoped_names_in names gs
  ok (x ∷ xs, hs)

abbrev step : {V : Type 0} → Bytes → Frame V → Frame V
step name s =
    let value = add_one (counter name s.scoped_names) in
    record s { scoped_names = insert name value s.scoped_names }

some-injective : {A : Type 0} {x y : A} → some x ≡ some y → x ≡ y
some-injective e = cc

-- A call steps the counter of the owner and names by it.
scoped_name_in-owner :
    {V : Type 0} (name : Bytes) (fs : List (Frame V)) (s : Frame V)
    → owner fs ≡ some s
    → (gs : List (Frame V)) × (scoped_name_in name fs
        ≡ ok (numbered s.scoped_basename name (add_one (counter name s.scoped_names)), gs))
      × (owner gs ≡ some (step name s))
unfolding scoped_name_in
scoped_name_in-owner name [] s e = cc
scoped_name_in-owner name (f ∷ fs) s e = elim (Bool-cases (length f.scoped_basename == 0)) [
  | inl blank ↦
      let (gs, called, owned) = scoped_name_in-owner name fs s (rw blank at e) in
      (f ∷ gs, rw blank (rw called), rw blank owned)
  | inr named ↦
      let own : f ≡ s = some-injective (rw named at e) in
      (step name f ∷ fs, rw named (rw own), rw named (rw own))
]

-- The names differ from one another.
abbrev pub IsDistinct : List Bytes → Type 0
IsDistinct [] = Unit
IsDistinct (x ∷ xs) = All (λ y. x ≢ y) xs × IsDistinct xs

-- No counter of the scope reaches 2^32 in `n` more calls.
abbrev pub HasRoom : {V : Type 0} → Frame V → ℕ → Type 0
HasRoom s n = (m : Bytes) → counter m s.scoped_names + n < 2 ^ 32

-- A name that the scope has not made yet.
abbrev IsNew : {V : Type 0} → Frame V → Bytes → Type 0
IsNew s x =
    (m : Bytes) × (i : ℕ) × (x ≡ numbered s.scoped_basename m i) × (counter m s.scoped_names < i)

module _ {V : Type 0} (s : Frame V) (name : Bytes) where
  counter-step :
      (m : Bytes)
      → counter m (step name s).scoped_names ≡ (
          if bytes_eq name m
          then add_one (counter name s.scoped_names)
          else counter m s.scoped_names)
  counter-step m = counter-insert name m (add_one (counter name s.scoped_names)) s.scoped_names

  counter_own : counter name (step name s).scoped_names ≡ add_one (counter name s.scoped_names)
  counter_own = rw ((bytes_eq_iff name name).1 refl) at (counter-step name)

module _ {V : Type 0} (s : Frame V) (name : Bytes) (n : ℕ) (room : HasRoom s (suc n)) where
  counter_grows :
      (m : Bytes)
      → (counter m s.scoped_names ≤ counter m (step name s).scoped_names)
        × (counter m (step name s).scoped_names ≤ counter m s.scoped_names + 1)
  counter_grows m = elim (Bool-cases (bytes_eq name m)) [
    | inl same ↦
        let e : name ≡ m = (bytes_eq_iff _ _).0 same in
        let own = rw same at (counter-step s name m) in
        let here : counter name s.scoped_names ≡ counter m s.scoped_names =
          ap (λ x. counter x s.scoped_names) e in
        omega (arith, own, here, room m)
    | inr other ↦ let own = rw other at (counter-step s name m) in omega (arith, own)
  ]

  step-HasRoom : HasRoom (step name s) n
  step-HasRoom m = omega (arith, (counter_grows m).1, room m)

  IsNew-step : (x : Bytes) → IsNew (step name s) x → IsNew s x
  IsNew-step x (m, i, e, h) = (m, i, e, omega (arith, h, (counter_grows m).0))

  -- The name of the step is none of those that are new behind it.
  made_ne_new :
      (y : Bytes)
      → IsNew (step name s) y
      → numbered s.scoped_basename name (add_one (counter name s.scoped_names)) ≢ y
  made_ne_new y (m, i, e, h) same =
      let (names, values) = numbered-injective s.scoped_basename name m _ i (same ∙ e) in
      let moved : counter m (step name s).scoped_names ≡ counter name (step name s).scoped_names =
        ap (λ x. counter x (step name s).scoped_names) (sym names) in
      omega (arith, h, moved, counter_own s name, values)

  made-IsNew : IsNew s (numbered s.scoped_basename name (add_one (counter name s.scoped_names)))
  made-IsNew = (name, add_one (counter name s.scoped_names), refl, omega (arith, room name))

All-map : {P Q : Bytes → Type 0} (xs : List Bytes) → ((x : Bytes) → P x → Q x) → All P xs → All Q xs
All-map [] f h = tt
All-map (x ∷ xs) f h = (f x h.0, All-map xs f h.1)

scoped_names_in-IsNew :
    {V : Type 0} (names : List Bytes) (fs : List (Frame V)) (s : Frame V)
    → owner fs ≡ some s
    → HasRoom s (length names)
    → (xs : List Bytes) × (gs : List (Frame V)) × (scoped_names_in names fs ≡ ok (xs, gs))
      × All (IsNew s) xs
      × IsDistinct xs
unfolding scoped_names_in
scoped_names_in-IsNew [] fs s e room = ([], fs, refl, tt, tt)
scoped_names_in-IsNew (name ∷ names) fs s e room =
    let (gs, called, owned) = scoped_name_in-owner name fs s e in
    let (xs, hs, later, new, distinct) =
      scoped_names_in-IsNew names gs (step name s) owned (step-HasRoom s name _ room) in
    (
      numbered s.scoped_basename name (add_one (counter name s.scoped_names)) ∷ xs,
      hs,
      rw called (rw later),
      (made-IsNew s name _ room, All-map xs (IsNew-step s name _ room) new),
      (All-map xs (made_ne_new s name _ room) new, distinct),
    )

-- Where the scope or a parent has a base name, and none of the counters there reaches 2^32, a row of
-- calls of `scopedName` succeeds, and the names it returns differ from one another.
pub scoped_names_in-IsDistinct :
    {V : Type 0} (names : List Bytes) (fs : List (Frame V)) (s : Frame V)
    → owner fs ≡ some s
    → HasRoom s (length names)
    → (xs : List Bytes) × (gs : List (Frame V)) × (scoped_names_in names fs ≡ ok (xs, gs))
      × IsDistinct xs
scoped_names_in-IsDistinct names fs s e room =
    let (xs, gs, called, new, distinct) = scoped_names_in-IsNew names fs s e room in
    (xs, gs, called, distinct)
