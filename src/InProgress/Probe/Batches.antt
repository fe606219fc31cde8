-- ===== src/InProgress/Probe/Batches.antt =====
-- The batches of probe threads against a plain map, in whatever order the threads finish.
use mathlib.Core.Option
use native.Mathlib.Decide.{ℕ_discrete, dec_lt}
use pvr_dispatcharrai.Prelude.{
  ℕ, zero, suc, ◌+◌, ◌≤◌, ◌<◌, ◌≡◌, refl, sym, ◌∙◌, ◌⊎◌, inl, inr, some, List, [], ◌∷◌, map, ℤ,
  negsuc, length, get_elem?, length-set, get_elem?-set_self, get_elem?-set_ne, length-replicate,
  length-map, min, arith, Option-cases, replicate, lt→ltb, not_lt→ltb,
}
use pvr_dispatcharrai.Prelude.Text.{Text}
use pvr_dispatcharrai.InProgress.Probe.{
  k_max_concurrent_probes, run_thread, run_batch, probe_batches, probed_sizes,
}

abbrev pub Occurs : ℕ → List ℕ → Type 0
Occurs i [] = ⊥
Occurs i (j ∷ js) = (j ≡ i) ⊎ Occurs i js

-- Every index of a batch has a thread.
abbrev pub IsComplete : (ℕ → ℕ → List ℕ) → Type 0
IsComplete order = (b e i : ℕ) → b ≤ i → i < e → Occurs i (order b e)

list_ext {ℓ} :
    {A : Type ℓ} (xs ys : List A)
    → length xs ≡ length ys
    → ((i : ℕ) → i < length xs → get_elem? xs i ≡ get_elem? ys i)
    → xs ≡ ys
list_ext [] [] e h = refl
list_ext [] (y ∷ ys) e h = absurd (omega arith)
list_ext (x ∷ xs) [] e h = absurd (omega arith)
list_ext (x ∷ xs) (y ∷ ys) e h =
    let tails : xs ≡ ys = list_ext xs ys (omega arith) (λ i p. h (suc i) (omega arith)) in
    let heads : some x ≡ some y = h 0 (omega arith) in cc (heads, tails)

get_elem?-map {ℓ κ} :
    {A : Type ℓ} {B : Type κ} (f : A → B) (xs : List A) (i : ℕ)
    → get_elem? (map f xs) i ≡ Option.map f (get_elem? xs i)
get_elem?-map f [] i = refl
get_elem?-map f (x ∷ xs) zero = refl
get_elem?-map f (x ∷ xs) (suc i) = get_elem?-map f xs i

get_elem?-in {ℓ} :
    {A : Type ℓ} (xs : List A) (i : ℕ) → i < length xs → (x : A) × (get_elem? xs i ≡ some x)
get_elem?-in [] i h = absurd (omega arith)
get_elem?-in (x ∷ xs) zero h = (x, refl)
get_elem?-in (x ∷ xs) (suc i) h = get_elem?-in xs i (omega arith)

module _ (probe : Text → ℤ) (urls : List Text) where
  -- The entry at `i` is the size of the URL at `i`.
  abbrev Right : List ℤ → ℕ → Type 0
  Right sizes i = get_elem? sizes i ≡ Option.map probe (get_elem? urls i)

  length-run_thread :
      (sizes : List ℤ) (i : ℕ) → length (run_thread probe urls sizes i) ≡ length sizes
  unfolding run_thread
  length-run_thread sizes i = elim (Option-cases (get_elem? urls i)) [
    | inl e ↦ rw (e, run_thread)
    | inr (u, e) ↦ rw (e, run_thread) (length-set sizes i (probe u))
  ]

  run_thread-Right :
      (sizes : List ℤ) (i : ℕ)
      → length sizes ≡ length urls
      → i < length urls
      → Right (run_thread probe urls sizes i) i
  unfolding run_thread
  run_thread-Right sizes i same inside =
      let (u, e) = get_elem?-in urls i inside in
      rw (e, run_thread) (get_elem?-set_self sizes i (probe u) (omega arith))

  run_thread-keeps :
      (sizes : List ℤ) (i j : ℕ)
      → length sizes ≡ length urls
      → j < length urls
      → Right sizes j
      → Right (run_thread probe urls sizes i) j
  unfolding run_thread
  run_thread-keeps sizes i j same inside right = elim (ℕ_discrete i j) [
    | yes e ↦ rw e (run_thread-Right sizes j same inside)
    | no ne ↦ elim (Option-cases (get_elem? urls i)) [
      | inl e ↦ rw (e, run_thread) right
      | inr (u, e) ↦ rw (e, run_thread) (get_elem?-set_ne sizes (probe u) ne ∙ right)
    ]
  ]

  length-run_batch :
      (sizes : List ℤ) (is : List ℕ) → length (run_batch probe urls sizes is) ≡ length sizes
  unfolding run_batch
  length-run_batch sizes [] = refl
  length-run_batch sizes (i ∷ is) =
      length-run_batch (run_thread probe urls sizes i) is ∙ length-run_thread sizes i

  -- A batch keeps what is right, and sets right each index that it has a thread for.
  run_batch-Right :
      (sizes : List ℤ) (is : List ℕ) (j : ℕ)
      → length sizes ≡ length urls
      → j < length urls
      → Right sizes j ⊎ Occurs j is
      → Right (run_batch probe urls sizes is) j
  unfolding run_batch
  run_batch-Right sizes [] j same inside (inl r) = r
  run_batch-Right sizes [] j same inside (inr o) = absurd o
  run_batch-Right sizes (i ∷ is) j same inside h =
      run_batch-Right (run_thread probe urls sizes i) is j (length-run_thread sizes i ∙ same) inside
        (next h)
    where
      next :
          Right sizes j ⊎ Occurs j (i ∷ is) → Right (run_thread probe urls sizes i) j ⊎ Occurs j is
      next (inl r) = inl (run_thread-keeps sizes i j same inside r)
      next (inr (inl e)) = inl (rw e (run_thread-Right sizes j same inside))
      next (inr (inr o)) = inr o

  probe_batches-Right :
      (order : ℕ → ℕ → List ℕ) (fuel start : ℕ) (sizes : List ℤ)
      → IsComplete order
      → length sizes ≡ length urls
      → length urls ≤ start + fuel
      → ((j : ℕ) → j < start → j < length urls → Right sizes j)
      → (length (probe_batches probe urls order fuel start sizes) ≡ length urls)
        × ((j : ℕ) → j < length urls → Right (probe_batches probe urls order fuel start sizes) j)
  unfolding probe_batches
  probe_batches-Right order zero start sizes complete same enough below =
      (same, λ j inside. below j (omega arith) inside)
  probe_batches-Right order (suc fuel) start sizes complete same enough below =
      elim (dec_lt start (length urls)) [
        | yes more ↦
            rw (lt→ltb _ _ more, probe_batches)
              (probe_batches-Right order fuel (start + k_max_concurrent_probes) batch complete
                (length-run_batch sizes (order start stop) ∙ same) (omega arith) batch_right)
        | no end ↦
            rw (not_lt→ltb _ _ end, probe_batches) (same, λ j inside. below j (omega arith) inside)
      ]
    where
      stop : ℕ
      stop = min (start + k_max_concurrent_probes) (length urls)

      batch : List ℤ
      batch = run_batch probe urls sizes (order start stop)

      batch_right : (j : ℕ) → j < start + k_max_concurrent_probes → j < length urls → Right batch j
      batch_right j near inside =
          run_batch-Right sizes (order start stop) j same inside (elim (dec_lt j start) [
            | yes old ↦ inl (below j old inside)
            | no new ↦ inr (complete start stop j (omega arith) (omega arith))
          ])

  -- In whatever order the threads of each batch finish, as long as all of them do, every pending
  -- segment ends with the size that its own probe found: the batches compute the plain map.
  pub probed_sizes-eq-map :
      (order : ℕ → ℕ → List ℕ) → IsComplete order → probed_sizes probe urls order ≡ map probe urls
  unfolding probed_sizes
  probed_sizes-eq-map order complete =
      let (len, right) =
        probe_batches-Right order (length urls) 0 (replicate (length urls) (negsuc 0)) complete
          (length-replicate (length urls) (negsuc 0)) (omega arith) (λ j h. absurd (omega arith)) in
      list_ext _ (map probe urls) (len ∙ sym (length-map urls probe))
        (λ i h. right i (omega arith) ∙ sym (get_elem?-map probe urls i))
