-- ===== src/Pipeline/Glob/Trie.antt =====
-- The trie of prefixes after an insertion: internal/pipeline/glob.go.
use cadish.Pipeline.Glob.{
  TrieNode, node, Children, nil, child, new_trie, find_child, with_child, insert, has_prefix_of,
}
use cadish.Prelude.Bytes.{Bytes, has_prefix}
use cadish.Prelude.{
  ℕ, ◌≡◌, refl, ap, false, ◌||◌, [], ◌∷◌, none, some, ◌==◌, if◌then◌else◌, arith, inl, inr,
  Bool-cases,
}

-- The child to change: the one that is there, or a new one.
abbrev old_child : ℕ → Children → TrieNode
old_child b ks = elim (find_child b ks) [ none ↦ new_trie | some t ↦ t ]

find-with_child :
    (a b : ℕ) (f : TrieNode → TrieNode) (ks : Children)
    → find_child a (with_child b f ks)
      ≡ (if b == a then some (f (old_child b ks)) else find_child a ks)
unfolding find_child with_child
find-with_child a b f nil = ground arith
find-with_child a b f (child c t ks) = ground (arith, find-with_child a b f ks)

pub has_prefix_of-new : (s : Bytes) → has_prefix_of s new_trie ≡ false
unfolding has_prefix_of find_child
has_prefix_of-new [] = refl
has_prefix_of-new (b ∷ s) = refl

-- A trie that took a prefix in answers for the texts that begin with it, and as before for the others.
pub has_prefix_of-insert :
    (p s : Bytes) (t : TrieNode)
    → has_prefix_of s (insert p t) ≡ (has_prefix p s || has_prefix_of s t)
unfolding has_prefix_of insert has_prefix
has_prefix_of-insert [] [] (node t ks) = ground arith
has_prefix_of-insert [] (b ∷ s) (node t ks) = ground arith
has_prefix_of-insert (a ∷ p) [] (node t ks) = ground arith
has_prefix_of-insert (a ∷ p) (b ∷ s) (node t ks) = elim (Bool-cases (a == b)) [
  | inl e ↦
      let same : find_child a ks ≡ find_child b ks = ap (λ x. find_child x ks) (ground arith) in
      ground (
        arith,
        find-with_child b a (insert p) ks,
        has_prefix_of-insert p s (old_child a ks),
        has_prefix_of-new s,
      )
  | inr e ↦ ground (arith, find-with_child b a (insert p) ks)
]
