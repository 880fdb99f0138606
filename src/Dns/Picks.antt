-- ===== src/Dns/Picks.antt =====
-- The results of a cached name are given in turn.
use pp.Prelude.{
  ℕ, zero, suc, ◌+◌, ◌-◌, ◌%◌, ◌≤◌, ◌<◌, ◌≡◌, List, [], ◌∷◌, Option, none, some, arith, leb,
  if◌then◌else◌, refl, sym, ap, ◌∙◌, length, get_elem?, get_elem-some, Option-cases, inl, inr,
}
use native.Mathlib.Nat.{mod-add-mod, mod-lt, zero-lt-suc}
use pp.Dns.{CacheResult, DnsResult, Give, pick_next, pick_dns_result, give_picked, give_nothing}

-- Of an empty list the index is 0.
abbrev pub InBounds : {A : Type 0} → List A → ℕ → Type 0
InBounds xs i = i ≤ length xs - 1

pub record InRange {Address : Type 0} (r : CacheResult Address) : Type 0 where
  pub four : InBounds r.a4_list r.last_a4_result_index
  pub six : InBounds r.a6_list r.last_a6_result_index

module _ (Address : Type 0) (unknown : Address) where
  next_index : (n last : ℕ) → last < n → (if leb n (last + 1) then 0 else last + 1) ≡ (last + 1) % n
  next_index n last h = grind arith

  first : (n last i k : ℕ) → i ≡ (last + 1) % n → i + 1 + k ≡ (last + 1) % n + (1 + k)
  first n last i k e = omega (arith, e)

  wraps :
      (n last i k : ℕ) → last < n → i ≡ (last + 1) % n → (i + 1 + k) % n ≡ (last + 1 + suc k) % n
  wraps n last i k below e =
      ap (λ m. m % n) (first n last i k e)
      ∙ mod-add-mod (last + 1) n (1 + k)
      ∙ ap (λ m. m % n) (omega arith)

  -- The address whose turn it is in the `k`-th call from now on.
  abbrev pub turn : List Address → ℕ → ℕ → Address
  turn xs last k = elim (get_elem? xs ((last + 1 + k) % length xs)) [ none ↦ unknown | some a ↦ a ]

  abbrev pub due : CacheResult Address → ℕ → DnsResult Address
  due r k = record {
    a4 = turn r.a4_list r.last_a4_result_index k;
    a6 = turn r.a6_list r.last_a6_result_index k;
  }

  pick_next-turn :
      (xs : List Address) (last : ℕ)
      → InBounds xs last
      → (i : ℕ) × (pick_next Address unknown xs last ≡ some (turn xs last 0, i))
        × InBounds xs i
        × ((k : ℕ) → turn xs i k ≡ turn xs last (suc k))
  unfolding pick_next
  pick_next-turn [] last h = (last, refl, h, λ k. refl)
  pick_next-turn (x ∷ xs) last h =
      let n = length (x ∷ xs) in
      let i = if leb n (last + 1) then 0 else last + 1 in
      let inside : last < n = omega (arith, h) in
      let below : i < n = ground (arith, h) in
      let (a, e) = get_elem-some (x ∷ xs) i below in
      let place : i ≡ (last + 1) % n = next_index n last inside in
      let at : get_elem? (x ∷ xs) ((last + 1 + 0) % n) ≡ some a =
        ap (get_elem? (x ∷ xs)) (ap (λ m. m % n) (omega arith) ∙ sym place) ∙ e in
      let turned : a ≡ turn (x ∷ xs) last 0 =
        sym (ap (λ o. elim o [ none ↦ unknown | some b ↦ b ]) at) in
      (
        i,
        rw (e, pick_next) (ap (λ b. some (b, i)) turned),
        omega (arith, below),
        λ k.
            ap (λ m. elim (get_elem? (x ∷ xs) m) [ none ↦ unknown | some a ↦ a ])
              (wraps n last i k inside place),
      )

  -- What a call gives, and what it leaves.
  pub record Picked (r r' : CacheResult Address) : Type 0 where
    pub gives : pick_dns_result Address unknown r ≡ some (due r 0, r')
    pub in_range : InRange r'
    pub later : (k : ℕ) → due r' k ≡ due r (suc k)
    pub four : r'.a4_list ≡ r.a4_list
    pub six : r'.a6_list ≡ r.a6_list

  pub pick_dns_result-Picked :
      (r : CacheResult Address) → InRange r → (r' : CacheResult Address) × Picked r r'
  unfolding pick_dns_result
  pick_dns_result-Picked r v =
      let (i, e, h, later) = pick_next-turn r.a4_list r.last_a4_result_index v.four in
      let (j, e', h', later') = pick_next-turn r.a6_list r.last_a6_result_index v.six in
      (
        record r { last_a4_result_index = i; last_a6_result_index = j },
        record {
          gives = rw (e, e', pick_dns_result) refl;
          in_range = record { four = h; six = h' };
          later = λ k. rw (later k, later' k) refl;
          four = refl;
          six = refl;
        },
      )

  abbrev pub Gives : Give Address unknown → Type 0
  Gives give =
      (r : CacheResult Address)
      → InRange r
      → (d : Option (DnsResult Address)) × (r' : CacheResult Address) × (give r ≡ some (d, r'))
        × InRange r'

  -- Whatever is picked, the lists stay.
  pub pick_dns_result-lists :
      (r : CacheResult Address) (d : DnsResult Address) (r' : CacheResult Address)
      → pick_dns_result Address unknown r ≡ some (d, r')
      → (r'.a4_list ≡ r.a4_list) × (r'.a6_list ≡ r.a6_list)
  unfolding pick_dns_result
  pick_dns_result-lists r d r' h =
      elim (Option-cases (pick_next Address unknown r.a4_list r.last_a4_result_index)) [
        | inl out ↦ absurd (ground (arith, h, out))
        | inr ((a, i), e) ↦
            elim (Option-cases (pick_next Address unknown r.a6_list r.last_a6_result_index)) [
              | inl out ↦ absurd (ground (arith, h, e, out))
              | inr ((b, j), e') ↦ (ground (arith, h, e, e'), ground (arith, h, e, e'))
            ]
      ]

  abbrev pub FromList : List Address → Address → Type 0
  FromList [] a = a ≡ unknown
  FromList (x ∷ xs) a = (m : ℕ) × (get_elem? (x ∷ xs) m ≡ some a)

  pub turn-FromList : (xs : List Address) (last k : ℕ) → FromList xs (turn xs last k)
  turn-FromList [] last k = refl
  turn-FromList (x ∷ xs) last k =
      let m = (last + 1 + k) % length (x ∷ xs) in
      let (a, e) = get_elem-some (x ∷ xs) m (mod-lt (last + 1 + k) (zero-lt-suc (length xs))) in
      (m, e ∙ ap some (sym (ap (λ o. elim o [ none ↦ unknown | some b ↦ b ]) e)))

  pub pick_dns_result-InRange :
      (r : CacheResult Address)
      → InRange r
      → (d : DnsResult Address) × (r' : CacheResult Address) × (pick_dns_result Address unknown r
          ≡ some (d, r'))
        × InRange r'
  pick_dns_result-InRange r v =
      let (r', picked) = pick_dns_result-Picked r v in (due r 0, r', picked.gives, picked.in_range)

  pub give_picked-Gives : Gives (give_picked Address unknown)
  unfolding give_picked
  give_picked-Gives r v =
      let (d, r', e, h) = pick_dns_result-InRange r v in (some d, r', rw (e, give_picked) refl, h)

  pub give_nothing-Gives : Gives (give_nothing Address unknown)
  unfolding give_nothing
  give_nothing-Gives r v = (none, r, refl, v)

  -- What `n` calls of PickDnsResult in a row give.
  abbrev pub pick_many : ℕ → CacheResult Address → Option (List (DnsResult Address))
  pick_many zero r = some []
  pick_many (suc n) r = elim (pick_dns_result Address unknown r) [
    | none ↦ none
    | some (d, r') ↦ elim (pick_many n r') [ none ↦ none | some ds ↦ some (d ∷ ds) ]
  ]

  abbrev pub InTurn : ℕ → CacheResult Address → Option (List (DnsResult Address)) → Type 0
  InTurn n r none = ⊥
  InTurn n r (some ds) = (length ds ≡ n) × ((k : ℕ) → k < n → get_elem? ds k ≡ some (due r k))

  InTurn-step :
      (n : ℕ) (r r' : CacheResult Address) (o : Option (List (DnsResult Address)))
      → Picked r r'
      → InTurn n r' o
      → InTurn (suc n) r (elim o [ none ↦ none | some ds ↦ some (due r 0 ∷ ds) ])
  InTurn-step n r r' none picked h = h
  InTurn-step n r r' (some ds) picked h = (omega (arith, h.0), each)
    where
      each : (k : ℕ) → k < suc n → get_elem? (due r 0 ∷ ds) k ≡ some (due r k)
      each zero lt = refl
      each (suc k) lt = h.1 k (omega (arith, lt)) ∙ ap some (picked.later k)

  -- With both last indices in bounds, calls of PickDnsResult one after the other fail no assertion,
  -- and give the addresses of each of the two lists in turn, from the one behind the last, and round
  -- again; of an empty list they give the unknown address.
  pub pick_many-InTurn : (n : ℕ) (r : CacheResult Address) → InRange r → InTurn n r (pick_many n r)
  pick_many-InTurn zero r v = (refl, λ k lt. absurd (omega (arith, lt)))
  pick_many-InTurn (suc n) r v =
      let (r', picked) = pick_dns_result-Picked r v in
      rw (picked.gives, pick_many)
        (InTurn-step n r r' (pick_many n r') picked (pick_many-InTurn n r' picked.in_range))
