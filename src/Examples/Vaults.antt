-- ===== src/Examples/Vaults.antt =====
-- The theorems on the model of the vault, at a vault in which a note and a folder come up.
use zeromux.FuzzyIndex.Vault.{
  RelPath, Disk, DirEntry, is_dir, is_other, is_under, read_node, DirNode, Dirs, full_scan, scanned,
  unreadable, reconcile_dir, subdirs, get_child, insert_child, add_entry, read_entries,
}
use zeromux.FuzzyIndex.Vault.FullScan.{full_scan-scanned, reconcile_dir-full_scan}
use zeromux.FuzzyIndex.Vault.Reconcile.{DeepSame}
use zeromux.FuzzyIndex.Vault.Scan.{Sizes, weigh}
use zeromux.FuzzyIndex.Vault.Tree.{walks, tree, lists, lists_in}
use zeromux.Prelude.{
  ℕ, suc, ◌≤◌, ◌≡◌, ◌≢◌, refl, ap, sym, subst, String, true, false, none, some, [], ◌∷◌, ◌⊎◌, arith,
  if◌then◌else◌, unwrap_or, Bool-cases, inl, inr, ◌∙◌,
}

abbrev folder : String → DirEntry
folder n = record { name = n; file_type = some is_dir; modified = none }

abbrev note : String → DirEntry
note n = record { name = n; file_type = some is_other; modified = some 7 }

abbrev vault : Disk
vault [] = some (folder "words" ∷ [])
vault (n ∷ []) = some (note "1.md" ∷ [])
vault (n ∷ k ∷ q) = none

abbrev words : RelPath
words = "words" ∷ []

-- Below the folder `words` a folder with a note has come up.
abbrev changed : Disk
changed [] = none
changed (n ∷ []) = some (note "1.md" ∷ folder "new" ∷ [])
changed (n ∷ k ∷ []) = some (note "2.md" ∷ [])
changed (n ∷ k ∷ j ∷ q) = none

vault_now : Disk
vault_now p = if is_under words p then changed p else vault p

abbrev height : RelPath → ℕ
height [] = 4
height (n ∷ []) = 3
height (n ∷ k ∷ []) = 2
height (n ∷ k ∷ j ∷ q) = 1

height_pos : (d : RelPath) → 1 ≤ height d
height_pos [] = omega arith
height_pos (n ∷ []) = omega arith
height_pos (n ∷ k ∷ []) = omega arith
height_pos (n ∷ k ∷ j ∷ q) = omega arith

-- What a folder of this disk weighs.
abbrev Splits : Disk → RelPath → Type 0
Splits disk d =
    (node : DirNode) (j : ℕ)
    → read_node disk d ≡ some node
    → suc (weigh height (subdirs d j node)) ≤ height d

vault-Splits : (d : RelPath) → Splits vault d
unfolding read_node read_entries add_entry insert_child subdirs weigh
vault-Splits [] node j e =
    subst (λ x. suc (weigh height (subdirs [] j x)) ≤ 4) (ap (λ o. unwrap_or o []) e) (omega arith)
vault-Splits (n ∷ []) node j e =
    subst (λ x. suc (weigh height (subdirs (n ∷ []) j x)) ≤ 3) (ap (λ o. unwrap_or o []) e)
      (omega arith)
vault-Splits (n ∷ k ∷ q) node j e = cc

changed-Splits : (d : RelPath) → Splits changed d
unfolding read_node read_entries add_entry insert_child subdirs weigh
changed-Splits [] node j e = cc
changed-Splits (n ∷ []) node j e =
    subst (λ x. suc (weigh height (subdirs (n ∷ []) j x)) ≤ 3) (ap (λ o. unwrap_or o []) e)
      (omega arith)
changed-Splits (n ∷ k ∷ []) node j e =
    subst (λ x. suc (weigh height (subdirs (n ∷ k ∷ []) j x)) ≤ 2) (ap (λ o. unwrap_or o []) e)
      (omega arith)
changed-Splits (n ∷ k ∷ i ∷ q) node j e = cc

read_same :
    (disk disk' : Disk) (d : RelPath) → disk d ≡ disk' d → read_node disk d ≡ read_node disk' d
unfolding read_node
read_same disk disk' d e = rw (read_node, e)

vault_now_in : (d : RelPath) → is_under words d ≡ true → vault_now d ≡ changed d
unfolding vault_now
vault_now_in d u = rw u

vault_now_out : (d : RelPath) → is_under words d ≡ false → vault_now d ≡ vault d
unfolding vault_now
vault_now_out d out = rw out

vault_now-Splits : (d : RelPath) → Splits vault_now d
vault_now-Splits d node j e = elim (Bool-cases (is_under words d)) [
  | inl u ↦ changed-Splits d node j (sym (read_same vault_now changed d (vault_now_in d u)) ∙ e)
  | inr out ↦ vault-Splits d node j (sym (read_same vault_now vault d (vault_now_out d out)) ∙ e)
]

abbrev vault-Sizes : Sizes vault
vault-Sizes = record {
  size = height;
  positive = height_pos;
  splits = λ d node j e. vault-Splits d node j e;
}

abbrev vault_now-Sizes : Sizes vault_now
vault_now-Sizes = record {
  size = height;
  positive = height_pos;
  splits = λ d node j e. vault_now-Splits d node j e;
}

full_scan-scanned_example :
    ((read_node vault [] ≡ none) × (full_scan vault 4 ≡ unreadable))
    ⊎ ((m : Dirs) × (full_scan vault 4 ≡ scanned m) × ((p : RelPath) → m p ≡ tree vault [] p))
full_scan-scanned_example = full_scan-scanned vault vault-Sizes 4 (omega arith) (omega arith)

vault_is_there : read_node vault [] ≢ none
unfolding read_node read_entries add_entry insert_child
vault_is_there e = cc

root_outside : is_under words [] ≡ false
unfolding is_under
root_outside = refl

vault_now_is_there : read_node vault_now [] ≢ none
vault_now_is_there e =
    vault_is_there (sym (read_same vault_now vault [] (vault_now_out [] root_outside)) ∙ e)

scan_of_vault : (m : Dirs) × (full_scan vault 4 ≡ scanned m)
scan_of_vault = elim full_scan-scanned_example [
  | inl (failed, e) ↦ absurd (vault_is_there failed)
  | inr (m, e, at) ↦ (m, e)
]

words_walked : walks vault [] words ≡ true
unfolding walks lists lists_in get_child read_node read_entries add_entry insert_child
words_walked = refl

deep_nothing : (n k j : String) (q : RelPath) → vault (n ∷ k ∷ j ∷ q) ≡ vault_now (n ∷ k ∷ j ∷ q)
unfolding vault_now
deep_nothing n k j q = elim (Bool-cases (is_under words (n ∷ k ∷ j ∷ q))) [
  | inl u ↦ rw u
  | inr out ↦ rw out
]

deep_same : DeepSame vault vault_now 1 words
deep_same [] w w' deep = absurd (omega arith)
deep_same (n ∷ []) w w' deep = absurd (omega arith)
deep_same (n ∷ k ∷ []) w w' deep = absurd (omega arith)
deep_same (n ∷ k ∷ j ∷ q) w w' deep =
    read_same vault vault_now (n ∷ k ∷ j ∷ q) (deep_nothing n k j q)

reconcile_dir-full_scan_example :
    (m' : Dirs) × (m'' : Dirs) × (reconcile_dir vault_now 4 1 words scan_of_vault.0 ≡ some m')
    × (full_scan vault_now 4 ≡ scanned m'')
    × ((p : RelPath) → m' p ≡ m'' p)
reconcile_dir-full_scan_example =
    reconcile_dir-full_scan vault vault_now vault-Sizes vault_now-Sizes 4 1 words scan_of_vault.0
      (omega arith) (omega arith) (omega arith) scan_of_vault.1 vault_now_is_there words_walked
      (λ p out. sym (read_same vault_now vault p (vault_now_out p out))) deep_same
