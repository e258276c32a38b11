-- ===== src/Bridges/Windows/Removal.antt =====
-- What unblocking a port and cleaning up do to the rules of the Windows firewall.
use port_sentinel.Base.Result.{ok}
use port_sentinel.Bridges.{is_finished, is_done, Outcome, finished, timed_out, not_run}
use port_sentinel.Base.{
  list_keys, text_keys, nat_keys, String, ℕ, List, [], ◌∷◌, Bool, ◌||◌, ◌&&◌, not, if◌then◌else◌,
  leb, ◌==◌, true, length, ◌+◌, contains, ◌≡◌, is_some, refl, Bool-cases, inl, inr, sym, ◌∙◌, ap,
  arith,
}
use port_sentinel.Bridges.Windows.{
  NetshCommand, delete_rule, show_rules, rule_name, settings_of, known_upper, find_names,
  block_port, unblock_port, counted, delete_names, cleanup_all_rules,
}
use port_sentinel.Bridges.Windows.Rules.{
  IsNetsh, returned, is_served, protocol_of, is_own, and_true, first, second, block_port_added,
}

and_not_or :
    (h a b c d : Bool)
    → ((((h && not a) && not b) && not c) && not d) ≡ (h && not (a || b || c || d))
and_not_or h a b c d = ground arith

not_either : (h a b : Bool) → ((h && not a) && not b) ≡ (h && not (if a then true else b))
not_either h a b = ground arith

-- A rule of the port's own goes, whichever of the two is there.
added_then_deleted :
    (h e v d k a b x y s t : Bool)
    → ((h || ((e && v) && (d && (a && x || k && (b && y))))) && not (e && (a || s || b || t)))
      ≡ (h && not (e && (a || s || b || t)))
added_then_deleted h e v d k a b x y s t = ground arith

module _ {S : Type 0} (run : NetshCommand → S → Outcome × S) (system : String)
    (holds : S → List ℕ → List String → Bool) (laws : IsNetsh run holds) where
  -- `unblock_port` returns True if and only if it runs on Windows and the port is in 1 to 65535,
  -- and then deletes the rules with one of the four names of the port and no other rule; in every
  -- other case it changes nothing.
  unblock_port_added :
      (port : ℕ) (s : S)
      → let (answer, t) = unblock_port run system port s in
        (returned answer ≡ is_served system port)
        × ((n : List ℕ) (x : List String)
            → holds t n x ≡ (holds s n x && not (is_served system port && is_own port n)))
  unfolding unblock_port
  unblock_port_added port s = elim (Bool-cases (system == "Windows")) [
    | inr m ↦ rw m (refl, λ n x. sym (and_true (holds s n x)))
    | inl y ↦ elim (Bool-cases (leb 1 port && leb port 65_535)) [
      | inr m ↦ rw (y, m) (refl, λ n x. sym (and_true (holds s n x)))
      | inl z ↦
          let go = λ (prefix label : String) (t : S).
            (run (delete_rule (rule_name prefix label port)) t).1 in
          let s1 = go "Vigilant" "Out" s in
          let s2 = go "Sentinel" "Out" s1 in
          let s3 = go "Vigilant" "In" s2 in
          rw (y, z)
            (
              refl,
              λ n x.
                  laws.delete (rule_name "Sentinel" "In" port) s3 n x
                  ∙ ap (λ h. h && not (rule_name "Sentinel" "In" port == n))
                      (laws.delete (rule_name "Vigilant" "In" port) s2 n x
                        ∙ ap (λ h. h && not (rule_name "Vigilant" "In" port == n))
                            (laws.delete (rule_name "Sentinel" "Out" port) s1 n x
                              ∙ ap (λ h. h && not (rule_name "Sentinel" "Out" port == n))
                                  (laws.delete (rule_name "Vigilant" "Out" port) s n x)))
                  ∙ and_not_or (holds s n x) (rule_name "Vigilant" "Out" port == n)
                      (rule_name "Sentinel" "Out" port == n) (rule_name "Vigilant" "In" port == n)
                      (rule_name "Sentinel" "In" port == n),
            )
    ]
  ]

  -- Whatever comes of blocking a port, unblocking it afterwards leaves the rules that unblocking it
  -- alone would leave: on Windows, for a port in 1 to 65535, those that were there before and have
  -- none of the four names of the port, and in every other case all that were there.
  pub unblock_port_after_block :
      (port : ℕ) (protocol : String) (s : S) (n : List ℕ) (x : List String)
      → holds (unblock_port run system port (block_port run system port protocol s).1).1 n x
        ≡ (holds s n x && not (is_served system port && is_own port n))
  unblock_port_after_block port protocol s n x =
      let known = protocol_of protocol in
      let mid = (block_port run system port protocol s).1 in
      (unblock_port_added port mid).1 n x
      ∙ ap (λ h. h && not (is_served system port && is_own port n))
          ((block_port_added run system holds laws port protocol s).1 n x)
      ∙ added_then_deleted (holds s n x) (is_served system port) (is_some (known_upper protocol))
          (is_done (first run system holds laws port known s).0)
          (is_done (second run system holds laws port known s).0)
          (rule_name "Vigilant" "Out" port == n) (rule_name "Vigilant" "In" port == n)
          (settings_of "out" known port == x) (settings_of "in" known port == x)
          (rule_name "Sentinel" "Out" port == n) (rule_name "Sentinel" "In" port == n)

  counted_ended :
      (removed : ℕ) (o : Outcome) (s : S)
      → is_finished o ≡ true
      → counted run system removed (o, s) ≡ (removed + 1, s)
  counted_ended removed (finished code out) s h = refl
  counted_ended removed timed_out s h = cc
  counted_ended removed not_run s h = cc

  delete_names_correct :
      (names : List (List ℕ)) (removed : ℕ) (s : S)
      → let (count, t) = delete_names run system names removed s in
        (count ≡ removed + length names)
        × ((n : List ℕ) (x : List String) → holds t n x ≡ (holds s n x && not (contains names n)))
  unfolding delete_names contains
  delete_names_correct [] removed s = (ground arith, λ n x. sym (and_true (holds s n x)))
  delete_names_correct (name ∷ names) removed s =
      let (o, t) = run (delete_rule name) s in
      let (count, rest) = delete_names_correct names (removed + 1) t in
      rw (delete_names, counted_ended removed o t (laws.delete_ends name s))
        (
          count ∙ ground arith,
          λ n x.
              rest n x
              ∙ ap (λ h. h && not (contains names n)) (laws.delete name s n x)
              ∙ not_either (holds s n x) (name == n) (contains names n),
        )

  -- If the program runs on Windows and netsh shows the rules, `cleanup_all_rules` returns the number
  -- of names that it finds in what netsh prints, and deletes the rules with these names and no
  -- other rule.
  pub cleanup_all_rules_correct :
      (code : ℕ) (out : List ℕ) (s : S)
      → (system == "Windows") ≡ true
      → (run show_rules s).0 ≡ finished code out
      → let (answer, t) = cleanup_all_rules run system s in
        (answer ≡ ok (length (find_names 0 out)))
        × ((n : List ℕ) (x : List String)
            → holds t n x ≡ (holds s n x && not (contains (find_names 0 out) n)))
  unfolding cleanup_all_rules
  cleanup_all_rules_correct code out s y e =
      let names = find_names 0 out in
      let (count, gone) = delete_names_correct names 0 (run show_rules s).1 in
      rw (y, e)
        (
          ap ok (count ∙ ground arith),
          λ n x. gone n x ∙ ap (λ h. h && not (contains names n)) (laws.show s n x),
        )
