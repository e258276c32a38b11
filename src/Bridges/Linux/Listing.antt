-- ===== src/Bridges/Linux/Listing.antt =====
-- The numbers of the rules in what `iptables -L INPUT -n --line-numbers` prints.
use port_sentinel.Base.{Option, List, ℕ, ◌∷◌, Bool, ◌++◌, some, if◌then◌else◌, ◌||◌, [], none}
use port_sentinel.Base.Words.{codes, occurs_in, first_word, read_number}

abbrev pub is_ours : List ℕ → Bool
is_ours line = occurs_in (codes "Vigilant_Block_") line || occurs_in (codes "Sentinel_Block_") line

abbrev add_number : Option ℕ → List ℕ → List ℕ
add_number none ns = ns
add_number (some n) ns = n ∷ ns

unfoldable pub to_delete : List (List ℕ) → List ℕ
to_delete [] = []
to_delete (line ∷ rest) =
    let ns = to_delete rest in
    if is_ours line then add_number (read_number (first_word line)) ns else ns

-- `to_delete.sort(reverse=True)` is a sort and then this.
unfoldable pub backwards {ℓ} : {A : Type ℓ} → List A → List A
backwards [] = []
backwards (x ∷ xs) = backwards xs ++ x ∷ []
