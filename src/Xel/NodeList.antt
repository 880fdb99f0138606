-- ===== src/Xel/NodeList.antt =====
-- xel::xList: a sequence of linked nodes, here by their identifiers, head first.
use pp.Prelude.{
  ℕ, ◌≡◌, ◌⊎◌, Bool, true, false, List, [], ◌∷◌, ◌++◌, Option, none, some, ◌==◌, if◌then◌else◌,
}

abbrev pub without : ℕ → List ℕ → List ℕ
without n [] = []
without n (m ∷ ms) = if m == n then without n ms else m ∷ without n ms

pub record NodeList : Type 1 where
  pub Links : Type 0
  pub empty : Links
  pub nodes : Links → List ℕ
  pub add_tail : Links → ℕ → Links
  -- PopHead(Cond): the head, if there is one and it meets the condition.
  pub pop_head_if : Links → (ℕ → Bool) → Option (ℕ × Links)
  -- A node that is destroyed leaves its list.
  pub unlink : Links → ℕ → Links
  pub nodes-empty : nodes empty ≡ []
  pub nodes-add_tail : (l : Links) (n : ℕ) → nodes (add_tail l n) ≡ nodes l ++ n ∷ []
  pub pop_head_if_lem :
      (l : Links) (cond : ℕ → Bool)
      → ((nodes l ≡ []) × (pop_head_if l cond ≡ none))
        ⊎ ((n : ℕ) × (l' : Links) × (nodes l ≡ n ∷ nodes l')
            × (((cond n ≡ true) × (pop_head_if l cond ≡ some (n, l')))
                ⊎ ((cond n ≡ false) × (pop_head_if l cond ≡ none))))
  pub nodes-unlink : (l : Links) (n : ℕ) → nodes (unlink l n) ≡ without n (nodes l)
  -- GrabListTail: the nodes of the second list move behind those of the first.
  pub grab_list_tail : Links → Links → Links
  pub nodes-grab_list_tail : (l m : Links) → nodes (grab_list_tail l m) ≡ nodes l ++ nodes m
