-- ===== src/Bridges/Linux/Cleanup.antt =====
-- `cleanup_all_rules` removes the program's rules and no other.
use port_sentinel.Base.Result.{Result, ok}
use port_sentinel.Base.Words.{read_number, first_word, split_lines, strip}
use port_sentinel.Base.Sort.{insert, sorted}
use port_sentinel.Base.{
  List, Bool, ℕ, ◌++◌, keep, ◌∷◌, suc, ◌≤◌, ◌≡◌, All, [], Bool-cases, arith, length, zero, not,
  refl, ap, inl, inr, some, if◌then◌else◌, String, ◌+◌, ◌<◌, false, length-append, ◌∙◌, sym,
  append_assoc, ◌==◌, true, text_keys, append-nil,
}
use port_sentinel.Bridges.{Outcome, finished, BridgeError}
use port_sentinel.Bridges.Linux.{
  Command, LinuxBridge, fw_cmd, list_rules, delete_line, delete_lines, cleanup_all_rules,
  after_line,
}
use port_sentinel.Bridges.Linux.Listing.{to_delete, is_ours, backwards}

-- The rules without the one with a number, from 1.
abbrev pub without {ℓ} : {A : Type ℓ} → List A → ℕ → List A
without [] n = []
without (r ∷ rules) zero = r ∷ rules
without (r ∷ rules) (suc zero) = rules
without (r ∷ rules) (suc (suc n)) = r ∷ without rules (suc n)

without-append :
    {R : Type 0} (before : List R) (r : R) (rest : List R)
    → without (before ++ r ∷ rest) (suc (length before)) ≡ before ++ rest
without-append [] r rest = refl
without-append (b ∷ before) r rest = ap (◌∷◌ b) (without-append before r rest)

module _ {R : Type 0} (ours : R → Bool) where
  -- The numbers of the program's rules, where the first rule has number `n`.
  abbrev pub numbers : ℕ → List R → List ℕ
  numbers n [] = []
  numbers n (r ∷ rules) = let ns = numbers (suc n) rules in if ours r then n ∷ ns else ns

  -- Each line names its rule's number and whether it is the program's.
  abbrev pub Lists : ℕ → List (List ℕ) → List R → Type 0
  Lists n [] [] = Unit
  Lists n [] (r ∷ rules) = ⊥
  Lists n (line ∷ lines) [] = ⊥
  Lists n (line ∷ lines) (r ∷ rules) =
      (is_ours line ≡ ours r) × (read_number (first_word line) ≡ some n) × Lists (suc n) lines rules

  to_delete-numbers :
      (n : ℕ) (lines : List (List ℕ)) (rules : List R)
      → Lists n lines rules
      → to_delete lines ≡ numbers n rules
  unfolding to_delete
  to_delete-numbers n [] [] h = refl
  to_delete-numbers n [] (r ∷ rules) h = absurd h
  to_delete-numbers n (line ∷ lines) [] h = absurd h
  to_delete-numbers n (line ∷ lines) (r ∷ rules) h =
      let (same, number, rest) = h in
      rw (same, number, to_delete-numbers (suc n) lines rules rest) refl

  All-numbers : (m n : ℕ) (rules : List R) → m ≤ n → All (λ k. m ≤ k) (numbers n rules)
  All-numbers m n [] h = tt
  All-numbers m n (r ∷ rules) h = elim (Bool-cases (ours r)) [
    | inl y ↦ rw y (h, All-numbers m (suc n) rules (omega arith))
    | inr x ↦ rw x (All-numbers m (suc n) rules (omega arith))
  ]

  insert_least : (n : ℕ) (ns : List ℕ) → All (λ k. n ≤ k) ns → insert (λ k. k) n ns ≡ n ∷ ns
  unfolding insert
  insert_least n [] h = refl
  insert_least n (k ∷ ns) h = ground (arith, h.0)

  sorted-numbers : (n : ℕ) (rules : List R) → sorted (λ k. k) (numbers n rules) ≡ numbers n rules
  unfolding sorted
  sorted-numbers n [] = refl
  sorted-numbers n (r ∷ rules) = elim (Bool-cases (ours r)) [
    | inl y ↦
        rw (y, sorted-numbers (suc n) rules)
          (insert_least n (numbers (suc n) rules) (All-numbers n (suc n) rules (omega arith)))
    | inr x ↦ rw (x, sorted-numbers (suc n) rules) refl
  ]

module _ {S : Type 0} (run : Command → S → Outcome × S) (bridge : LinuxBridge) (system : String)
    {R : Type 0} (chain : S → List R) (ours : R → Bool) where
  -- The manual of iptables: a deletion by number takes the rule with that number away.
  abbrev pub Deletes : Type 0
  Deletes =
      (n : ℕ) (s : S)
      → n < length (chain s)
      → ((run (fw_cmd bridge (delete_line (suc n))) s).0 ≡ finished 0 [])
        × (chain (run (fw_cmd bridge (delete_line (suc n))) s).1 ≡ without (chain s) (suc n))

  -- A listing ends well, leaves the rules, and has lines that are not of the program's rules and
  -- then a line for each rule.
  pub record IsListing (s : S) (out : List ℕ) : Type 0 where
    pub lines : List (List ℕ)
    pub head : List (List ℕ)
    pub printed : run (fw_cmd bridge list_rules) s ≡ (finished 0 out, s)
    pub split : split_lines (strip out) ≡ head ++ lines
    pub foreign : All (λ line. is_ours line ≡ false) head
    pub numbered : Lists ours 1 lines (chain s)

  after_line-finished :
      (go : ℕ → S → Result BridgeError ℕ × S) (removed : ℕ) (r : Outcome × S)
      → r.0 ≡ finished 0 []
      → after_line run bridge system go removed r ≡ go (removed + 1) r.1
  after_line-finished go removed (out, s) e = rw e refl

  step :
      (laws : Deletes) (before : List R) (r : R) (rest : List R) (s : S) (removed : ℕ)
      (more : List ℕ)
      → chain s ≡ before ++ r ∷ rest
      → let s' = (run (fw_cmd bridge (delete_line (suc (length before)))) s).1 in
        (delete_lines run bridge system (suc (length before) ∷ more) removed s
          ≡ delete_lines run bridge system more (removed + 1) s')
        × (chain s' ≡ before ++ rest)
  unfolding delete_lines
  step laws before r rest s removed more e =
      let n = length before in
      let inside : n < length (chain s) = rw (e, length-append before (r ∷ rest)) (omega arith) in
      let (ended, left) = laws n s inside in
      (
        after_line-finished (delete_lines run bridge system more) removed
            (run (fw_cmd bridge (delete_line (suc n))) s) ended,
        left ∙ rw (e, without-append before r rest) refl,
      )

  -- From the bottom up, the numbers of the rules above stay right.
  delete_lines-numbers :
      (laws : Deletes) (before rules : List R) (s : S) (removed : ℕ) (more : List ℕ)
      → chain s ≡ before ++ rules
      → (s' : S) × (delete_lines run bridge system
            (backwards (numbers ours (suc (length before)) rules) ++ more)
            removed
            s
          ≡ delete_lines run bridge system more (removed + length (keep ours rules)) s')
        × (chain s' ≡ before ++ keep (λ r. not (ours r)) rules)
  unfolding backwards keep
  delete_lines-numbers laws before [] s removed more e =
      (s, ap (λ k. delete_lines run bridge system more k s) (omega arith), e)
  delete_lines-numbers laws before (r ∷ rules) s removed more e =
      let n = length before in
      let e' : chain s ≡ (before ++ r ∷ []) ++ rules =
        e ∙ sym (append_assoc before (r ∷ []) rules) in
      let size : length (before ++ r ∷ []) ≡ suc n = omega (arith, length-append before (r ∷ [])) in
      let ih = delete_lines-numbers laws (before ++ r ∷ []) rules in
      let named : numbers ours (suc (length (before ++ r ∷ []))) rules
          ≡ numbers ours (suc (suc n)) rules =
        ap (λ k. numbers ours (suc k) rules) size in
      let go : List ℕ → Result BridgeError ℕ × S =
        λ ns. delete_lines run bridge system ns removed s in
      let kept = keep (λ x. not (ours x)) rules in
      elim (Bool-cases (ours r)) [
        | inl y ↦
            let (s', ran, left) = ih s removed (suc n ∷ more) e' in
            let (last, gone) =
              step laws before r kept s' (removed + length (keep ours rules)) more
                (left ∙ append_assoc before (r ∷ []) kept) in
            rw y (
              (run (fw_cmd bridge (delete_line (suc n))) s').1,
              ap go (append_assoc (backwards (numbers ours (suc (suc n)) rules)) (suc n ∷ []) more)
                  ∙ ap (λ ns. go (backwards ns ++ suc n ∷ more)) (sym named)
                  ∙ ran
                  ∙ last
                  ∙ ap
                      (λ k.
                        delete_lines run bridge system more k
                          (run (fw_cmd bridge (delete_line (suc n))) s').1)
                      (omega arith),
              gone,
            )
        | inr x ↦
            let (s', ran, left) = ih s removed more e' in
            rw x (
              s',
              ap (λ ns. go (backwards ns ++ more)) (sym named) ∙ ran,
              left ∙ append_assoc before (r ∷ []) kept,
            )
      ]

  to_delete-head :
      (head lines : List (List ℕ))
      → All (λ line. is_ours line ≡ false) head
      → to_delete (head ++ lines) ≡ to_delete lines
  unfolding to_delete
  to_delete-head [] lines h = refl
  to_delete-head (line ∷ head) lines h = rw (h.0) (to_delete-head head lines h.1)

  -- On Linux, with a firewall that lists rules and deletes them by number as iptables does,
  -- `cleanup_all_rules` removes exactly the rules of this program and returns how many it removed.
  pub cleanup_all_rules_correct :
      (laws : Deletes) (s : S) (out : List ℕ)
      → IsListing s out
      → (system == "Linux") ≡ true
      → let (answer, after) = cleanup_all_rules run bridge system s in
        (answer ≡ ok (length (keep ours (chain s))))
        × (chain after ≡ keep (λ r. not (ours r)) (chain s))
  unfolding cleanup_all_rules delete_lines
  cleanup_all_rules_correct laws s out listing linux =
      let found : to_delete (split_lines (strip out)) ≡ numbers ours 1 (chain s) =
        rw listing.split (
          to_delete-head listing.head listing.lines listing.foreign
          ∙ to_delete-numbers ours 1 listing.lines (chain s) listing.numbered) in
      let (s', ran, left) = delete_lines-numbers laws [] (chain s) s 0 [] refl in
      let ns = backwards (numbers ours 1 (chain s)) in
      let go : List ℕ → Result BridgeError ℕ × S = λ l. delete_lines run bridge system l 0 s in
      let whole : go ns ≡ (ok (length (keep ours (chain s))), s') =
        ap go (sym (append-nil ns)) ∙ ran ∙ ap (λ k. (ok k, s')) (omega arith) in
      rw (linux, listing.printed, found, sorted-numbers ours 1 (chain s), whole) (refl, left)
