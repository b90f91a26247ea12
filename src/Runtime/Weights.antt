-- ===== src/Runtime/Weights.antt =====
-- The block weights and the deletion queue of runtime/src/lib.rs.
use native.Mathlib.Nat.{div-mul-le_self, mod-le, mul-le-mul_right, mod-eq_of_lt, lt-div-mul-add}
use crain.Prelude.{
  ℕ, ◌+◌, ◌-◌, ◌*◌, ◌/◌, ◌%◌, ◌≤◌, ◌<◌, ◌≡◌, refl, ap, ◌∙◌, done, Option, none, some, arith,
}
use crain.Prelude.Machine.{Build, sub-eq_of_le, mul-eq_of_lt, div-eq_of_pos, u32_mod, u64_mod}
use crain.Runtime.{
  Substrate, BlockWeights, ClassWeights, average_on_initialize_ratio, normal_dispatch_ratio,
  maximum_block_weight, block_weights, deletion_weight_limit, deletion_queue_depth,
}

-- If two seconds' weight is a u64, the weights are computed in every build: what the operational
-- dispatches have in reserve is just what the normal ones leave free of the largest block weight,
-- which is the operational limit, and the limit of the lazy deletion is that of the normal ones.
block_weights_add_up :
    (b : Build) (e : Substrate) (max_block : ℕ)
    → 2 * e.weight_per_second < u64_mod
    → (w : BlockWeights) × (n r : ℕ) × (block_weights b e ≡ done w)
      × (w.normal.max_total ≡ some n)
      × (w.operational.reserved ≡ some r)
      × (w.operational.max_total ≡ some (n + r))
      × (maximum_block_weight b e ≡ done (n + r))
      × (n + r ≡ 2 * e.weight_per_second)
      × (deletion_weight_limit max_block w ≡ n)
unfolding block_weights maximum_block_weight deletion_weight_limit
block_weights_add_up b e max_block h =
    let maximum : ℕ = 2 * e.weight_per_second in
    let normal : ℕ = e.of_percent normal_dispatch_ratio maximum in
    let le : normal ≤ maximum = e.of_percent_le normal_dispatch_ratio maximum (omega arith) in
    (
      record {
        base_block = e.block_execution_weight;
        normal = limits (some normal) none;
        operational = limits (some maximum) (some (maximum - normal));
        mandatory = limits none none;
        avg_block_initialization = average_on_initialize_ratio;
      },
      normal,
      maximum - normal,
      rw (
        mul-eq_of_lt u64_mod b 2 e.weight_per_second h,
        sub-eq_of_le u64_mod b maximum normal le h,
      ),
      refl,
      refl,
      ap some (omega arith),
      mul-eq_of_lt u64_mod b 2 e.weight_per_second h ∙ ap done (omega arith),
      omega arith,
      refl,
    )
  where
    limits : Option ℕ → Option ℕ → ClassWeights
    limits m r = record { base_extrinsic = e.extrinsic_base_weight; max_total = m; reserved = r }

module _ (b : Build) (weight_limit one zero_items : ℕ) (costs : zero_items < one)
    (is_u64 : one < u64_mod) where
  depth_exact :
      deletion_queue_depth b weight_limit one zero_items
      ≡ done (weight_limit / (one - zero_items) / 5 % u32_mod)
  unfolding deletion_queue_depth
  depth_exact =
      rw
        (
          sub-eq_of_le u64_mod b one zero_items (omega arith) (omega arith),
          div-eq_of_pos weight_limit (one - zero_items) (omega arith),
        )
        (rw (div-eq_of_pos (weight_limit / (one - zero_items)) 5 (omega arith)))

  -- The quotient before the cast.
  abbrev uncut : ℕ
  uncut = weight_limit / (one - zero_items) / 5

  fifth_fits : uncut * (one - zero_items) * 5 ≤ weight_limit
  fifth_fits = omega (
    arith,
    div-mul-le_self weight_limit (one - zero_items),
    mul-le-mul_right (one - zero_items) (div-mul-le_self (weight_limit / (one - zero_items)) 5),
  )

  cut_fits : uncut % u32_mod * (one - zero_items) ≤ weight_limit / 5
  cut_fits = omega (arith, fifth_fits, mul-le-mul_right (one - zero_items) (mod-le uncut u32_mod))

  -- If an item of the queue costs weight at all, the depth is computed in every build, and
  -- decoding a queue of that depth costs at most a fifth of the weight for the lazy deletion,
  -- whatever the cast to u32 cuts off.
  deletion_queue_depth_fits :
      (depth : ℕ) × (deletion_queue_depth b weight_limit one zero_items ≡ done depth)
      × (depth < u32_mod)
      × (depth * (one - zero_items) ≤ weight_limit / 5)
  deletion_queue_depth_fits =
      (weight_limit / (one - zero_items) / 5 % u32_mod, depth_exact, omega arith, cut_fits)

  -- If moreover the quotient is a u32, the depth is the greatest of which that is true: one item
  -- more would cost more than the fifth.
  deletion_queue_depth_greatest :
      weight_limit / (one - zero_items) / 5 < u32_mod
      → (depth : ℕ) × (deletion_queue_depth b weight_limit one zero_items ≡ done depth)
        × (depth * (one - zero_items) ≤ weight_limit / 5)
        × (weight_limit < (depth + 1) * (one - zero_items) * 5)
  deletion_queue_depth_greatest small = (
    uncut,
    depth_exact ∙ ap done (mod-eq_of_lt small),
    omega (arith, fifth_fits),
    omega (
      arith,
      lt-div-mul-add {a = weight_limit} {b = one - zero_items} (omega arith),
      mul-le-mul_right (one - zero_items) next,
    ),
  )
    where
      next : weight_limit / (one - zero_items) + 1 ≤ (uncut + 1) * 5
      next = omega arith
