-- ===== src/Bus/Handlers.antt =====
-- The handlers of a type after a sequence of calls of the bus.
use port_sentinel.Base.Dict.{Dict, get-put, get}
use port_sentinel.Bus.{handlers_of, add_handler, remove_one, drop_handler}
use port_sentinel.Base.{
  if◌then◌else◌, ℕ, List, [], HasEq, contains, ◌∷◌, ◌++◌, ◌≡◌, ◌==◌, ◌-◌, ltb, ◌+◌, arith, refl,
  Bool-cases, inl, same_refl, inr, false, ◌&&◌, Option-cases,
}

module _ {H : Type 0} ⦃he : HasEq H⦄ where
  -- How often a handler stands in a list.
  unfoldable pub count : H → List H → ℕ
  count h [] = 0
  count h (x ∷ xs) = (if x == h then 1 else 0) + count h xs

  pub count-append : (h : H) (xs ys : List H) → count h (xs ++ ys) ≡ count h xs + count h ys
  unfolding count
  count-append h [] ys = omega arith
  count-append h (x ∷ xs) ys = omega (arith, count-append h xs ys)

  pub contains-count : (h : H) (xs : List H) → contains xs h ≡ ltb 0 (count h xs)
  unfolding count contains
  contains-count h [] = refl
  contains-count h (x ∷ xs) = ground (arith, contains-count h xs, he.same_iff x h, he.same_iff h x)

  pub count-remove_one :
      (h k : H) (xs : List H) → count k (remove_one h xs) ≡ count k xs - (if h == k then 1 else 0)
  unfolding count remove_one
  count-remove_one h k [] = ground arith
  count-remove_one h k (x ∷ xs) = elim (Bool-cases (x == h)) [
    | inl e ↦ let same : x ≡ h = (he.same_iff x h).0 e in rw (same, same_refl h) (omega arith)
    | inr e ↦
        let rest = count-remove_one h k xs in
        elim (Bool-cases (h == k)) [
          | inl m ↦
              let other : (x == k) ≡ false =
                ground (arith, he.same_iff h k, he.same_iff x k, he.same_iff x h) in
              rw (e, other) (ground (arith, rest))
          | inr n ↦ rw (e, n) (ground (arith, rest))
        ]
  ]

module _ {T H : Type 0} ⦃te : HasEq T⦄ ⦃he : HasEq H⦄ where
  pub handlers_of-add :
      (table : Dict T (List H)) (t : T) (h : H) (s : T)
      → handlers_of (add_handler table t h) s ≡ (
          if t == s
          then (if contains (handlers_of table t) h
              then handlers_of table t
              else handlers_of table t ++ h ∷ [])
          else handlers_of table s)
  unfolding handlers_of add_handler
  handlers_of-add table t h s =
      rw
        (get-put table t
          (if contains (handlers_of table t) h
            then handlers_of table t
            else handlers_of table t ++ h ∷ [])
          s)
        (ground arith)

  pub handlers_of-drop :
      (table : Dict T (List H)) (t : T) (h : H) (s : T)
      → handlers_of (drop_handler table t h) s ≡ (
          if (t == s) && contains (handlers_of table t) h
          then remove_one h (handlers_of table t)
          else handlers_of table s)
  unfolding handlers_of drop_handler contains
  handlers_of-drop table t h s = elim (Option-cases (get table t)) [
    | inl e ↦ rw (e, contains) (ground arith)
    | inr (hs, e) ↦ rw e (ground (arith, get-put table t (remove_one h hs) s, te.same_iff t s))
  ]
