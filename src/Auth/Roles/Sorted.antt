-- ===== src/Auth/Roles/Sorted.antt =====
-- The order of the bindings of a resolver, internal/auth/roles.go.
use estate_ci.Prelude.{
  ◌≤◌, Bool, true, false, List, [], ◌∷◌, ◌⊎◌, inl, inr, Bool-cases, All, Some, here, there, arith,
  ltb, if◌then◌else◌,
}
use estate_ci.Auth.Roles.{Role, ResolvedBinding, insert_binding, sort_bindings}

-- The roles of a list fall.
unfoldable pub Falls : List ResolvedBinding → Type 0
Falls [] = Unit
Falls (b ∷ bs) = All (λ d. d.role ≤ b.role) bs × Falls bs

All-insert :
    (n : Role) (b : ResolvedBinding) (bs : List ResolvedBinding)
    → b.role ≤ n
    → All (λ d. d.role ≤ n) bs
    → All (λ d. d.role ≤ n) (insert_binding b bs)
unfolding insert_binding
All-insert n b [] h hs = (h, tt)
All-insert n b (d ∷ ds) h (hd, hs) =
    All-if n (ltb b.role d.role) _ _ (hd, All-insert n b ds h hs) (h, (hd, hs))
  where
    All-if :
        (n : Role) (c : Bool) (xs ys : List ResolvedBinding)
        → All (λ d. d.role ≤ n) xs
        → All (λ d. d.role ≤ n) ys
        → All (λ d. d.role ≤ n) (if c then xs else ys)
    All-if n true xs ys h k = h
    All-if n false xs ys h k = k

All-weaken :
    (m n : Role) (bs : List ResolvedBinding)
    → m ≤ n
    → All (λ d. d.role ≤ m) bs
    → All (λ d. d.role ≤ n) bs
All-weaken m n [] h hs = tt
All-weaken m n (b ∷ bs) h (hb, hs) = (omega arith, All-weaken m n bs h hs)

insert-Falls :
    (b : ResolvedBinding) (bs : List ResolvedBinding) → Falls bs → Falls (insert_binding b bs)
unfolding insert_binding Falls
insert-Falls b [] h = (tt, tt)
insert-Falls b (d ∷ ds) (hd, hs) = elim (Bool-cases (ltb b.role d.role)) [
  | inl less ↦ rw less (All-insert d.role b ds (ground arith) hd, insert-Falls b ds hs)
  | inr more ↦ rw more ((ground arith, All-weaken d.role b.role ds (ground arith) hd), (hd, hs))
]

pub sort-Falls : (bs : List ResolvedBinding) → Falls (sort_bindings bs)
unfolding sort_bindings Falls
sort-Falls [] = tt
sort-Falls (b ∷ bs) = insert-Falls b (sort_bindings bs) (sort-Falls bs)

module _ {P : ResolvedBinding → Type 0} where
  insert-here :
      (b : ResolvedBinding) (bs : List ResolvedBinding) → P b → Some P (insert_binding b bs)
  unfolding insert_binding
  insert-here b [] h = here h
  insert-here b (d ∷ ds) h = Some-if (ltb b.role d.role) _ _ (there (insert-here b ds h)) (here h)
    where
      Some-if :
          (c : Bool) (xs ys : List ResolvedBinding)
          → Some P xs
          → Some P ys
          → Some P (if c then xs else ys)
      Some-if true xs ys h k = h
      Some-if false xs ys h k = k

  insert-there :
      (b : ResolvedBinding) (bs : List ResolvedBinding) → Some P bs → Some P (insert_binding b bs)
  unfolding insert_binding
  insert-there b [] x = elim x [ ]
  insert-there b (d ∷ ds) (here h) = elim (Bool-cases (ltb b.role d.role)) [
    | inl less ↦ rw less (here h)
    | inr more ↦ rw more (there (here h))
  ]
  insert-there b (d ∷ ds) (there h) = elim (Bool-cases (ltb b.role d.role)) [
    | inl less ↦ rw less (there (insert-there b ds h))
    | inr more ↦ rw more (there (there h))
  ]

  pub sort-Some : (bs : List ResolvedBinding) → Some P bs → Some P (sort_bindings bs)
  unfolding sort_bindings
  sort-Some [] x = elim x [ ]
  sort-Some (b ∷ bs) (here h) = insert-here b (sort_bindings bs) h
  sort-Some (b ∷ bs) (there h) = insert-there b (sort_bindings bs) (sort-Some bs h)

  insert-back :
      (b : ResolvedBinding) (bs : List ResolvedBinding)
      → Some P (insert_binding b bs)
      → P b ⊎ Some P bs
  unfolding insert_binding
  insert-back b [] (here h) = inl h
  insert-back b [] (there h) = inr h
  insert-back b (d ∷ ds) h = elim (Bool-cases (ltb b.role d.role)) [
    | inl less ↦ behind (insert-back b ds) (rw less at h)
    | inr more ↦ front (rw more at h)
  ]
    where
      front : Some P (b ∷ d ∷ ds) → P b ⊎ Some P (d ∷ ds)
      front (here h) = inl h
      front (there h) = inr h

      behind :
          (Some P (insert_binding b ds) → P b ⊎ Some P ds)
          → Some P (d ∷ insert_binding b ds)
          → P b ⊎ Some P (d ∷ ds)
      behind back (here h) = inr (here h)
      behind back (there h) = elim (back h) [ inl p ↦ inl p | inr q ↦ inr (there q) ]

  pub sort-back : (bs : List ResolvedBinding) → Some P (sort_bindings bs) → Some P bs
  unfolding sort_bindings
  sort-back [] h = h
  sort-back (b ∷ bs) h = elim (insert-back b (sort_bindings bs) h) [
    | inl p ↦ here p
    | inr q ↦ there (sort-back bs q)
  ]
