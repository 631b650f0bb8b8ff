-- ===== src/Server/Positions.antt =====
-- Properties of the outputs of a connection of src/htnstratum/stratum_server.go that depend on what
-- was written before.
use htn_stratum_bridge.Prelude.{List, [], ◌∷◌, ◌++◌, append_assoc}
use mathlib.Core.List.{append-nil}

-- `P before x` of each element `x`, where `before` is what `start` and the list have before it.
abbrev pub AllFrom : {A : Type 0} → (List A → A → Type 0) → List A → List A → Type 0
AllFrom P start [] = Unit
AllFrom P start (x ∷ xs) = P start x × AllFrom P (start ++ (x ∷ [])) xs

module _ {A : Type 0} (P : List A → A → Type 0) where
  pub AllFrom-append :
      (start xs ys : List A)
      → AllFrom P start xs
      → AllFrom P (start ++ xs) ys
      → AllFrom P start (xs ++ ys)
  AllFrom-append start [] ys all more = rw (append-nil start) at more
  AllFrom-append start (x ∷ xs) ys all more = (
    all.0,
    AllFrom-append (start ++ (x ∷ [])) xs ys all.1 (rw (append_assoc start (x ∷ []) xs) more),
  )

  pub AllFrom-at :
      (start before : List A) (x : A) (after : List A)
      → AllFrom P start (before ++ (x ∷ after))
      → P (start ++ before) x
  AllFrom-at start [] x after all = rw (append-nil start) (all.0)
  AllFrom-at start (y ∷ before) x after all =
      rw (← append_assoc start (y ∷ []) before)
        (AllFrom-at (start ++ (y ∷ [])) before x after all.1)
