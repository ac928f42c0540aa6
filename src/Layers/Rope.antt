-- ===== src/Layers/Rope.antt =====
-- rope_inplace of src/model/nn.cpp. A step of the inner loop reads and writes the values i and
-- i + half of one head alone, so that a head turns by halves.
use from_scratch_inference_e.Base.{
  ℕ, zero, suc, ◌+◌, ◌*◌, ◌/◌, List, [], ◌∷◌, ◌++◌, map, ◌==◌, length, take, drop, get_elem?,
  Result, ok, ◌>>=◌, ◌>>◌, guard, or_fail, undefined, invalid_argument,
}
use from_scratch_inference_e.Tensor.{Tensor, dim, ndim}
use from_scratch_inference_e.Layers.Floats.{Floats}
use from_scratch_inference_e.Layers.Rows.{each_row, zip_with}

module _ {ℓ} {F D : Type ℓ} (A : Floats F D) where
  -- inv_freq from index `i`
  unfoldable pub frequencies : D → ℕ → ℕ → ℕ → List D
  frequencies theta head_dim i zero = []
  frequencies theta head_dim i (suc n) =
      A.dpow theta (A.ddiv (A.dmul (A.dneg A.dtwo) (A.dof_nat i)) (A.dof_nat head_dim))
      ∷ frequencies theta head_dim (i + 1) n

  abbrev pub turn_first : D × F → F → F
  turn_first p x2 =
      A.narrow (A.dsub (A.dmul (A.wide p.1) (A.dcos p.0)) (A.dmul (A.wide x2) (A.dsin p.0)))

  abbrev pub turn_second : D × F → F → F
  turn_second p x2 =
      A.narrow (A.dadd (A.dmul (A.wide x2) (A.dcos p.0)) (A.dmul (A.wide p.1) (A.dsin p.0)))

  -- One head: an odd head_dim leaves the last value as it is.
  unfoldable pub turn_head : ℕ → List D → List F → Result (List F)
  unfolding zip_with
  turn_head half angles head = do
    let x1 = take half head
    let x2 = take half (drop half head)
    pairs ← zip_with (λ a x. (a, x)) angles x1
    firsts ← zip_with turn_first pairs x2
    seconds ← zip_with turn_second pairs x2
    ok (firsts ++ seconds ++ drop (half + half) head)

  unfoldable pub turn_row : ℕ → ℕ → List D → ℕ → List F → Result (List F)
  unfolding turn_head each_row
  turn_row n_heads head_dim freqs position row =
      let angles = map (λ f. A.dmul (A.dof_nat position) f) freqs in
      each_row (λ h head. turn_head (head_dim / 2) angles head) head_dim 0 n_heads row

  unfoldable pub rope_inplace : Tensor F → ℕ → ℕ → D → List ℕ → Result (Tensor F)
  unfolding turn_row each_row frequencies
  rope_inplace x n_heads head_dim theta positions = do
    guard (ndim x == 2) invalid_argument
    width ← dim x 1
    guard (width == n_heads * head_dim) invalid_argument
    s ← dim x 0
    guard (length positions == s) invalid_argument
    let freqs = frequencies theta head_dim 0 (head_dim / 2)
    values ←
        each_row
          (λ t row. or_fail undefined (get_elem? positions t) >>= λ position.
            turn_row n_heads head_dim freqs position row)
          (n_heads * head_dim) 0 s x.data_
    ok (record x { data_ = values })
