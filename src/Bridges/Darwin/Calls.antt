-- ===== src/Bridges/Darwin/Calls.antt =====
-- Calls of the bridge of macOS, one after another, and the rules that they ask for.
use port_sentinel.Base.Words.{codes}
use port_sentinel.Base.{
  contains, if◌then◌else◌, String, none, ℕ, Option, List, ◌≡◌, some, nat_keys, ◌∷◌, Bool-cases, [],
  refl, ◌==◌, inl, inr, not, leb, ◌&&◌, text_keys, false,
}
use port_sentinel.Bridges.{known_protocol, Outcome}
use port_sentinel.Bridges.Darwin.Parsing.{pf_rule}
use port_sentinel.Bridges.Darwin.{
  Disk, cleanup_all_rules, PfRules, PfCommand, is_interface, with_rule, block_known, block_port,
  unblock_port,
}

module _ {S : Type 0} (disk : Disk S) (run : PfCommand → S → Outcome × S) (system : String) where
  -- The protocol of the rule that a call of `block_port` writes, if it writes one.
  abbrev pub accepted : ℕ → String → String → Option String
  accepted port protocol interface =
      if not (system == "Darwin")
      then none
      else if not (leb 1 port && leb port 65_535)
      then none
      else if not (is_interface interface)
      then none
      else known_protocol protocol

  abbrev pub with_accepted : ℕ → String → Option String → PfRules → S → PfRules
  with_accepted port interface none p s = p
  with_accepted port interface (some known) p s =
      with_rule disk run system p port (pf_rule interface known port) s

  block_known-active :
      (port : ℕ) (protocol interface : String) (known : Option String) (p : PfRules) (s : S)
      → let (answer, q, t) = block_known disk run system port protocol interface known p s in
        q ≡ with_accepted port interface (if not (is_interface interface) then none else known) p s
  block_known-active port protocol interface none p s = elim (Bool-cases (is_interface interface)) [
    | inl y ↦ rw y refl
    | inr n ↦ rw n refl
  ]
  block_known-active port protocol interface (some k) p s =
      elim (Bool-cases (is_interface interface)) [ inl y ↦ rw y refl | inr n ↦ rw n refl ]

  pub block_port-active :
      (port : ℕ) (protocol interface : String) (p : PfRules) (s : S)
      → let (answer, q, t) = block_port disk run system port protocol interface p s in
        q ≡ with_accepted port interface (accepted port protocol interface) p s
  unfolding block_port
  block_port-active port protocol interface p s = elim (Bool-cases (system == "Darwin")) [
    | inr n ↦ rw n refl
    | inl y ↦ elim (Bool-cases (leb 1 port && leb port 65_535)) [
      | inr m ↦ rw (y, m) refl
      | inl z ↦ rw (y, z) (block_known-active port protocol interface (known_protocol protocol) p s)
    ]
  ]

  abbrev pub with_wanted : ℕ → String → Option String → (ℕ → Option (List ℕ)) → ℕ → Option (List ℕ)
  with_wanted port interface none rules k = rules k
  with_wanted port interface (some known) rules k =
      if port == k then some (pf_rule interface known port) else rules k

  -- A call of the bridge, and the state after it.
  pub data Call : Type 0 where
    blocks : (port : ℕ) (protocol interface : String) → Call
    unblocks : (port : ℕ) → Call
    cleans_up : Call

  abbrev pub after_call : Call → PfRules × S → PfRules × S
  after_call (blocks port protocol interface) (p, s) =
      let (answer, p', s') = block_port disk run system port protocol interface p s in (p', s')
  after_call (unblocks port) (p, s) =
      let (answer, p', s') = unblock_port disk run system port p s in (p', s')
  after_call cleans_up (p, s) =
      let (answer, p', s') = cleanup_all_rules disk run system p s in (p', s')

  unfoldable pub after_calls : List Call → PfRules × S → PfRules × S
  after_calls [] w = w
  after_calls (call ∷ calls) w = after_calls calls (after_call call w)

  -- The rule of each port: that of the last accepted block, unless an unblock of the port or a
  -- cleanup follows it.
  abbrev pub wanted_after : Call → (ℕ → Option (List ℕ)) → ℕ → Option (List ℕ)
  wanted_after (blocks port protocol interface) rules k =
      with_wanted port interface (accepted port protocol interface) rules k
  wanted_after (unblocks port) rules k = if port == k then none else rules k
  wanted_after cleans_up rules k = none

  unfoldable pub wanted : List Call → (ℕ → Option (List ℕ)) → ℕ → Option (List ℕ)
  wanted [] rules = rules
  wanted (call ∷ calls) rules = wanted calls (wanted_after call rules)

  -- The rule of a call is one line of the file: its interface has no line end, which the test of
  -- the interface lets through as its last code point.
  abbrev pub IsOneLine : Call → Type 0
  IsOneLine (blocks port protocol interface) = contains (codes interface) 10 ≡ false
  IsOneLine (unblocks port) = Unit
  IsOneLine cleans_up = Unit
