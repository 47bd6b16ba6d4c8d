-- ===== src/Trie/Counts.antt =====
-- example_trie.cpp: the two counters of the nodes under `insert`.
use uc.Prelude.{
  ℕ, ◌+◌, ◌≡◌, refl, ap, ==→eq, arith, List, [], ◌∷◌, ◌==◌, if◌then◌else◌, Bool, true, false, ◌&&◌,
}
use uc.Prelude.Texts.{same}
use uc.Trie.{Trie, missing, node, created, insert_from, insert}

-- The node that a word leads to.
unfoldable pub walk : List ℕ → Trie → Trie
walk v missing = missing
walk [] (node c p next) = node c p next
walk (b ∷ v) (node c p next) = walk v (next b)

-- The counters of a node, 0 where there is none.
unfoldable pub count : Trie → ℕ
count missing = 0
count (node c p next) = c

unfoldable pub pass : Trie → ℕ
pass missing = 0
pass (node c p next) = p

-- The second word goes on behind the first.
unfoldable pub longer : List ℕ → List ℕ → Bool
longer v [] = false
longer [] (b ∷ w) = true
longer (a ∷ v) (b ∷ w) = a == b && longer v w

unfoldable pub one_if : Bool → ℕ
one_if true = 1
one_if false = 0

insert_child_lem :
    (hit : Bool) (v w : List ℕ) (here there : Trie)
    → (hit ≡ true → here ≡ there)
    → (count (walk v (insert_from w (created there))) ≡ count (walk v there) + one_if (same v w))
      × (pass (walk v (insert_from w (created there))) ≡ pass (walk v there) + one_if (longer v w))
    → let after = if hit then insert_from w (created there) else here in
      (count (walk v after) ≡ count (walk v here) + one_if (hit && same v w))
      × (pass (walk v after) ≡ pass (walk v here) + one_if (hit && longer v w))
unfolding one_if
insert_child_lem true v w here there e ih = rw (e refl) ih
insert_child_lem false v w here there e ih = (omega arith, omega arith)

insert_from_lem :
    (v w : List ℕ) (t : Trie)
    → (count (walk v (insert_from w (created t))) ≡ count (walk v t) + one_if (same v w))
      × (pass (walk v (insert_from w (created t))) ≡ pass (walk v t) + one_if (longer v w))
unfolding walk created insert_from count pass same longer one_if
insert_from_lem [] [] missing = (refl, refl)
insert_from_lem [] [] (node c p next) = (omega arith, omega arith)
insert_from_lem (a ∷ v) [] missing = (refl, refl)
insert_from_lem (a ∷ v) [] (node c p next) = (omega arith, omega arith)
insert_from_lem [] (b ∷ w) missing = (refl, refl)
insert_from_lem [] (b ∷ w) (node c p next) = (omega arith, omega arith)
insert_from_lem (a ∷ v) (b ∷ w) missing =
    insert_child_lem (a == b) v w missing missing (λ h. refl) (insert_from_lem v w missing)
insert_from_lem (a ∷ v) (b ∷ w) (node c p next) =
    insert_child_lem (a == b) v w (next a) (next b) (λ h. ap next (==→eq a b h))
      (insert_from_lem v w (next b))

-- `insert` of a word into the trie at `root` adds 1 to `count` of the node of that word and 1 to
-- `pass` of the node of each shorter beginning of it; every other node of the trie keeps both, new
-- nodes starting from 0. The empty word changes nothing.
pub count-pass-insert :
    (v w : List ℕ) (c p : ℕ) (next : ℕ → Trie)
    → let root = node c p next in
      (count (walk v (insert w root)) ≡ count (walk v root) + one_if (longer [] w && same v w))
      × (pass (walk v (insert w root)) ≡ pass (walk v root) + one_if (longer v w))
unfolding insert longer one_if created
count-pass-insert v [] c p next = (omega arith, omega arith)
count-pass-insert v (b ∷ w) c p next = insert_from_lem v (b ∷ w) (node c p next)
