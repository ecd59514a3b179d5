-- ===== src/Key/Pages.antt =====
-- The pages of a shard (src/shard.rs) and the page of an address (src/page/mod.rs).
use native.Mathlib.Nat.{
  div-le_self, mul-le-mul_left, pow-suc, pow-zero, mod-eq_of_lt, div-lt_iff_lt-mul,
}
use native.Mathlib.Decide.{dec_lt}
use sharded_slab.Base.{
  ℕ, zero, suc, ◌+◌, ◌-◌, ◌*◌, ◌/◌, ◌%◌, ◌^◌, ◌≤◌, ◌<◌, ◌≡◌, ◌↔◌, subst, sym, ap, ◌∙◌, some,
  get_elem?, arith,
}
use sharded_slab.Word.Fields.{two_pow-pos}
use sharded_slab.Word.Powers.{two_pow-add, two_pow_mono}
use sharded_slab.Word.Counts.{
  bit_length, leading_zeros, bit_length-le, bit_length_upper, bit_length_lower, bit_length_zero,
}
use sharded_slab.Config.{Config, page_size, addr_field}
use sharded_slab.Config.Valid.{
  IsConfig, page_rounded, initial_sz_lem, addr_index_shift_lem, addr_len, key_Fits,
}
use sharded_slab.Key.{PageSize, index, new_sizes}

module _ {c : Config} (v : IsConfig c) where
  abbrev pub exponent : ℕ
  exponent = (page_rounded v).exponent

  -- What the pages before the `n`-th hold together.
  abbrev pub before_page : ℕ → ℕ
  before_page n = 2 ^ exponent * (2 ^ n - 1)

  pub addresses : 2 ^ (addr_field c).len ≡ 2 * (2 ^ exponent * 2 ^ c.max_pages)
  addresses =
      let e : (addr_field c).len ≡ suc (exponent + c.max_pages) =
        omega (arith, addr_len c, addr_index_shift_lem v) in
      ap (λ (t : ℕ). 2 ^ t) e
      ∙ omega (arith, pow-suc 2 (exponent + c.max_pages), two_pow-add exponent c.max_pages)

  pages_fit : 2 * (2 ^ exponent * 2 ^ c.max_pages) ≤ 2 ^ c.width
  pages_fit = omega (
    arith,
    addresses,
    two_pow_mono {a = (addr_field c).len} {b = c.width} (omega (arith, (key_Fits v).all_inside)),
  )

  pub smaller : (n : ℕ) → n ≤ c.max_pages → 2 ^ exponent * 2 ^ n ≤ 2 ^ exponent * 2 ^ c.max_pages
  smaller n h = mul-le-mul_left (2 ^ exponent) (two_pow_mono h)

  pub some_addresses : 0 < 2 ^ exponent * 2 ^ c.max_pages
  some_addresses =
      omega (arith, two_pow-add exponent c.max_pages, two_pow-pos (exponent + c.max_pages))

  pub page_size_lem : (n : ℕ) → n ≤ c.max_pages → page_size c n ≡ 2 ^ exponent * 2 ^ n
  unfolding page_size
  page_size_lem n h =
      rw (initial_sz_lem v) (mod-eq_of_lt (omega (arith, pages_fit, smaller n h, some_addresses)))

  pub before_page_lem : (n : ℕ) → before_page n + 2 ^ exponent ≡ 2 ^ exponent * 2 ^ n
  before_page_lem n =
      let e : 2 ^ n ≡ 2 ^ n - 1 + 1 = omega (arith, two_pow-pos n) in
      omega (arith, ap (λ (t : ℕ). 2 ^ exponent * t) e)

  pub next_page : (n : ℕ) → before_page (n + 1) ≡ before_page n + 2 ^ exponent * 2 ^ n
  next_page n =
      let e : n + 1 ≡ suc n = omega arith in
      omega (
        arith,
        before_page_lem n,
        before_page_lem (suc n),
        ap before_page e,
        ap (λ (t : ℕ). 2 ^ exponent * t) (pow-suc 2 n),
      )

  pub grows :
      (n : ℕ)
      → n < c.max_pages
      → (before_page n + page_size c n) % 2 ^ c.width ≡ before_page (n + 1)
  grows n h = rw (page_size_lem n (omega arith)) (
      mod-eq_of_lt (
        omega (
          arith,
          pages_fit,
          next_page n,
          before_page_lem (n + 1),
          smaller (n + 1) (omega arith),
          some_addresses,
        ))
      ∙ sym (next_page n))

  sizes_from :
      (count n i : ℕ)
      → n + count ≤ c.max_pages
      → i < count
      → get_elem? (new_sizes c count n (before_page n)) i
        ≡ some (record { size = 2 ^ exponent * 2 ^ (n + i); prev_sz = before_page (n + i) })
  unfolding new_sizes
  sizes_from zero n i h p = absurd (omega arith)
  sizes_from (suc count) n zero h p =
      let e : n + 0 ≡ n = omega arith in
      rw e (
        ap (λ t. some (record { size = t; prev_sz = before_page n }))
          (page_size_lem n (omega arith)))
  sizes_from (suc count) n (suc i) h p =
      let e : n + suc i ≡ n + 1 + i = omega arith in
      rw e (
        ap (λ t. get_elem? (new_sizes c count (n + 1) t) i) (grows n (omega arith))
        ∙ sizes_from count (n + 1) i (omega arith) (omega arith))

  -- The address in units of twice the first page's size.
  abbrev shifted : ℕ → ℕ
  shifted addr = (addr + 2 ^ exponent) / (2 * 2 ^ exponent)

  in_word : (addr : ℕ) → addr < 2 ^ (addr_field c).len → addr + 2 ^ exponent < 2 ^ c.width
  in_word addr h = omega (
    arith,
    addresses,
    two_pow_mono {a = suc (addr_field c).len} {b = c.width}
        (omega (arith, (key_Fits v).all_inside, (key_Fits v).some_mid)),
    pow-suc 2 (addr_field c).len,
    smaller 0 (omega arith),
  )

  shifted_in_word : (addr : ℕ) → addr < 2 ^ (addr_field c).len → shifted addr < 2 ^ c.width
  shifted_in_word addr h =
      omega (arith, in_word addr h, div-le_self (addr + 2 ^ exponent) (2 * 2 ^ exponent))

  index_lem :
      (addr : ℕ) → addr < 2 ^ (addr_field c).len → index c addr ≡ bit_length c.width (shifted addr)
  unfolding index leading_zeros
  index_lem addr h =
      let unit : 2 ^ (exponent + 1) ≡ 2 * 2 ^ exponent = omega (arith, two_pow-add exponent 1) in
      rw (addr_index_shift_lem v, initial_sz_lem v, unit, mod-eq_of_lt (in_word addr h))
        (omega (arith, bit_length-le c.width (shifted addr)))

  shifted-lt : (addr n : ℕ) → (shifted addr < 2 ^ n) ↔ (addr < before_page (n + 1))
  shifted-lt addr n =
      let both : (shifted addr < 2 ^ n) ↔ (addr + 2 ^ exponent < 2 ^ n * (2 * 2 ^ exponent)) =
        div-lt_iff_lt-mul {k = 2 * 2 ^ exponent} {x = addr + 2 ^ exponent} {y = 2 ^ n}
          (omega (arith, two_pow-pos exponent)) in
      let page : before_page (n + 1) + 2 ^ exponent ≡ 2 ^ n * (2 * 2 ^ exponent) =
        omega (arith, next_page n, before_page_lem n) in
      (λ h. omega (arith, both.0 h, page), λ h. both.1 (omega (arith, page)))

  page_of :
      (addr k : ℕ)
      → shifted addr < 2 ^ k
      → (0 < shifted addr → 2 ^ k ≤ 2 * shifted addr)
      → (shifted addr ≡ 0 → k ≡ 0)
      → (before_page k ≤ addr) × (addr < before_page (k + 1))
  page_of addr zero p q r = (omega (arith, pow-zero 2), (shifted-lt addr 0).0 p)
  page_of addr (suc k) p q r = (lower, (shifted-lt addr (suc k)).0 p)
    where
      big : 2 ^ k ≤ shifted addr
      big = elim (dec_lt 0 (shifted addr)) [
        | yes further ↦ omega (arith, q further, pow-suc 2 k)
        | no first ↦ absurd (omega (arith, r (omega arith)))
      ]

      lower : before_page (suc k) ≤ addr
      lower = elim (dec_lt addr (before_page (k + 1))) [
        | yes less ↦ absurd (omega (arith, (shifted-lt addr k).1 less, big))
        | no more ↦ let e : k + 1 ≡ suc k = omega arith in omega (arith, ap before_page e)
      ]

  -- The page that `index` names holds the address.
  index-holds :
      (addr : ℕ)
      → addr < 2 ^ (addr_field c).len
      → (before_page (index c addr) ≤ addr) × (addr < before_page (index c addr + 1))
  index-holds addr h =
      subst (λ k. (before_page k ≤ addr) × (addr < before_page (k + 1))) (sym (index_lem addr h))
        (page_of addr (bit_length c.width (shifted addr))
          (bit_length_upper c.width (shifted addr) (shifted_in_word addr h))
          (bit_length_lower c.width (shifted addr) (shifted_in_word addr h))
          (λ e. ap (bit_length c.width) e ∙ bit_length_zero c.width))

  pages_grow : (m n : ℕ) → m ≤ n → before_page m ≤ before_page n
  pages_grow m n h =
      omega (
        arith,
        before_page_lem m,
        before_page_lem n,
        mul-le-mul_left (2 ^ exponent) (two_pow_mono h),
      )

  -- Only that page does.
  pub index_unique :
      (addr n : ℕ)
      → addr < 2 ^ (addr_field c).len
      → before_page n ≤ addr
      → addr < before_page (n + 1)
      → index c addr ≡ n
  index_unique addr n h p q = elim (dec_lt (index c addr) n) [
    | yes less ↦
        absurd (omega (arith, index-holds addr h, pages_grow (index c addr + 1) n (omega arith)))
    | no a ↦ elim (dec_lt n (index c addr)) [
      | yes more ↦
          absurd
            (omega (arith, index-holds addr h, pages_grow (n + 1) (index c addr) (omega arith)))
      | no b ↦ omega arith
    ]
  ]

  -- An address is on the `n`-th page that `Shard::new` makes exactly when `index` says so.
  pub index-page :
      (addr n : ℕ)
      → addr < 2 ^ (addr_field c).len
      → n < c.max_pages
      → (page : PageSize) × (get_elem? (new_sizes c c.max_pages 0 0) n ≡ some page)
        × ((index c addr ≡ n) ↔ ((page.prev_sz ≤ addr) × (addr < page.prev_sz + page.size)))
  index-page addr n h p = (
    record { size = 2 ^ exponent * 2 ^ n; prev_sz = before_page n },
    first_zero,
    (here, λ (low, high). index_unique addr n h low (omega (arith, next_page n))),
  )
    where
      first_zero :
          get_elem? (new_sizes c c.max_pages 0 0) n
          ≡ some (record { size = 2 ^ exponent * 2 ^ n; prev_sz = before_page n })
      first_zero =
          let e : 0 + n ≡ n = omega arith in
          let z : before_page 0 ≡ 0 = omega (arith, pow-zero 2) in
          subst
            (λ (t : ℕ).
              get_elem? (new_sizes c c.max_pages 0 t) n
              ≡ some (record { size = 2 ^ exponent * 2 ^ n; prev_sz = before_page n }))
            z
            (subst
              (λ (t : ℕ).
                get_elem? (new_sizes c c.max_pages 0 (before_page 0)) n
                ≡ some (record { size = 2 ^ exponent * 2 ^ t; prev_sz = before_page t }))
              e (sizes_from c.max_pages 0 n (omega arith) p))

      here :
          index c addr ≡ n → (before_page n ≤ addr) × (addr < before_page n + 2 ^ exponent * 2 ^ n)
      here e =
          let held : (before_page n ≤ addr) × (addr < before_page (n + 1)) =
            subst (λ k. (before_page k ≤ addr) × (addr < before_page (k + 1))) e
              (index-holds addr h) in
          (held.0, omega (arith, held, next_page n))
