-- ===== src/Database/Retention.antt =====
-- What pruning does to the traffic history.
use port_sentinel.Base.Floats.{Floats}
use port_sentinel.Database.Engine.{Engine}
use port_sentinel.Database.Tables.{Database, TrafficHistory}
use port_sentinel.Database.History.{in_history, is_old, get_traffic_history, prune_old_traffic}
use port_sentinel.Base.{
  ℕ, List, nat_keys, keep, ◌≤◌, not, Bool, ◌≡◌, ◌∷◌, ◌+◌, length, arith, ap, ◌∙◌, [], refl,
}

module _ {F : Type 0} ⦃fl : Floats F⦄ where
  keep-in_history :
      (port hours age now later : ℕ) (rs : List (TrafficHistory F))
      → hours ≤ age
      → now ≤ later
      → keep (in_history port hours later) (keep (λ r. not (is_old age now r)) rs)
        ≡ keep (in_history port hours later) rs
  unfolding keep in_history is_old
  keep-in_history port hours age now later [] h k = refl
  keep-in_history port hours age now later (r ∷ rest) h k =
      ground (arith, keep-in_history port hours age now later rest h k)

length-keep-not {ℓ} :
    {A : Type ℓ} (p : A → Bool) (xs : List A)
    → length (keep p xs) + length (keep (λ x. not (p x)) xs) ≡ length xs
unfolding keep
length-keep-not p [] = omega arith
length-keep-not p (x ∷ xs) = ground (arith, length-keep-not p xs)

module _ (sql : Engine) {F : Type 0} ⦃fl : Floats F⦄ where
  -- Pruning with an age that is no less than the span of a query does not change what the query
  -- returns, then or later; it reports as many rows as it removes.
  pub prune_old_traffic_correct :
      (db : Database sql F) (port hours age now later : ℕ)
      → hours ≤ age
      → now ≤ later
      → (get_traffic_history sql (prune_old_traffic sql db age now).0 port hours later
          ≡ get_traffic_history sql db port hours later)
        × ((prune_old_traffic sql db age now).1
              + length (sql.rows (TrafficHistory F) (prune_old_traffic sql db age now).0.traffic)
            ≡ length (sql.rows (TrafficHistory F) db.traffic))
  unfolding get_traffic_history prune_old_traffic
  prune_old_traffic_correct db port hours age now later h k =
      let rs = sql.rows (TrafficHistory F) db.traffic in
      let left = sql.rows-delete (TrafficHistory F) db.traffic (is_old age now) in
      (
        ap
              (λ l.
                sql.order_by (TrafficHistory F) (λ r. r.timestamp)
                  (keep (in_history port hours later) l))
              left
            ∙ ap (sql.order_by (TrafficHistory F) (λ r. r.timestamp))
                (keep-in_history port hours age now later rs h k),
        rw left (length-keep-not (is_old age now) rs),
      )
