-- ===== src/Xel/Instances.antt =====
-- Implementations of the interfaces, on which the examples run.
use pp.Prelude.{
  ℕ, ◌+◌, ◌*◌, ◌/◌, ◌%◌, ◌≡◌, ◌↔◌, ◌⊎◌, inl, inr, refl, Bool, true, false, ◌&&◌, List, [], ◌∷◌,
  ◌++◌, Option, none, some, arith, ◌==◌, ltb, if◌then◌else◌, Bool-cases, Bytes, length, bytes_eq,
  bytes_eq_iff, Eq,
}
use pp.Xel.ClientPool.{ClientPool}
use pp.Xel.Storage.{Storage}
use pp.Xel.NodeList.{NodeList, without}
use pp.Xel.NetAddress.{NetAddress, Kind, unknown_address, is4, is6}
use pp.Xel.Hex.{Hex}
use pp.Xel.Stream.{Stream}
use pp.Xel.ServerIds.{ServerIds}

-- Identifiers are handed out in order and not used again.
pub record Counted (A : Type 0) : Type 0 where
  pub last : ℕ
  pub at : ℕ → Option A

abbrev pub get_counted : {A : Type 0} → Counted A → ℕ → Option A
get_counted p c = if ltb p.last c then none else p.at c

abbrev pub add_counted : {A : Type 0} → Counted A → A → ℕ × Counted A
add_counted p a =
    (p.last + 1, record { last = p.last + 1; at = λ c. if p.last + 1 == c then some a else p.at c })

abbrev pub remove_counted : {A : Type 0} → Counted A → ℕ → Counted A
remove_counted p i = record p { at = λ c. if i == c then none else p.at c }

abbrev pub no_counted : {A : Type 0} → Counted A
no_counted = record { last = 0; at = λ c. none }

pub counted-fresh : {A : Type 0} (p : Counted A) (a : A) → get_counted p (add_counted p a).0 ≡ none
counted-fresh p a = ground arith

pub counted-add :
    {A : Type 0} (p : Counted A) (a : A) (c : ℕ)
    → get_counted (add_counted p a).1 c
      ≡ (if (add_counted p a).0 == c then some a else get_counted p c)
counted-add p a c = ground arith

pub counted-remove :
    {A : Type 0} (p : Counted A) (i c : ℕ)
    → get_counted (remove_counted p i) c ≡ (if i == c then none else get_counted p c)
counted-remove p i c = ground arith

abbrev pub counting_client_pool : (A : Type 0) → ClientPool A
counting_client_pool A = record {
  Pool = Counted A;
  server_of = get_counted;
  add_server = add_counted;
  remove_server = remove_counted;
  add_fresh = counted-fresh;
  server_of-add = λ p a c h. counted-add p a c;
  server_of-remove = counted-remove;
}

-- The identifier 0 is never in use.
abbrev pub get_stored : {A : Type 0} → Counted A → ℕ → Option A
get_stored p i = if i == 0 then none else get_counted p i

abbrev pub write_stored : {A : Type 0} → Counted A → ℕ → A → Counted A
write_stored p i a = record p { at = λ c. if i == c then some a else p.at c }

module _ (A : Type 0) (first : A) where
  pub get_stored-write :
      (p : Counted A) (i : ℕ) (t u : A) (j : ℕ)
      → get_stored p i ≡ some u
      → get_stored (write_stored p i t) j ≡ (if i == j then some t else get_stored p j)
  get_stored-write p i t u j h = ground (arith, h)

  pub get_stored-add :
      (p : Counted A) (j : ℕ)
      → get_stored (add_counted p first).1 j
        ≡ (if (add_counted p first).0 == j then some first else get_stored p j)
  get_stored-add p j = ground arith

  pub get_stored-remove :
      (p : Counted A) (i j : ℕ)
      → get_stored (remove_counted p i) j ≡ (if i == j then none else get_stored p j)
  get_stored-remove p i j = ground arith

  pub get_stored-fresh : (p : Counted A) → get_stored p (add_counted p first).0 ≡ none
  get_stored-fresh p = ground arith

  abbrev pub counting_storage : Storage A
  counting_storage = record {
    Pool = Counted A;
    initial = first;
    check_and_get = get_stored;
    acquire = λ p. add_counted p first;
    write = write_stored;
    release = remove_counted;
    get-zero = λ p. refl;
    acquire_fresh = get_stored-fresh;
    get-acquire = λ p j h. get_stored-add p j;
    get-acquire_full = λ p j h. absurd (omega (arith, h));
    get-write = get_stored-write;
    get-release = get_stored-remove;
  }

abbrev pub pop_if : List ℕ → (ℕ → Bool) → Option (ℕ × List ℕ)
pop_if [] cond = none
pop_if (n ∷ ns) cond = if cond n then some (n, ns) else none

pub pop_if_lem :
    (l : List ℕ) (cond : ℕ → Bool)
    → ((l ≡ []) × (pop_if l cond ≡ none))
      ⊎ ((n : ℕ) × (l' : List ℕ) × (l ≡ n ∷ l')
          × (((cond n ≡ true) × (pop_if l cond ≡ some (n, l')))
              ⊎ ((cond n ≡ false) × (pop_if l cond ≡ none))))
pop_if_lem [] cond = inl (refl, refl)
pop_if_lem (n ∷ ns) cond = elim (Bool-cases (cond n)) [
  | inl e ↦ inr (n, ns, refl, inl (e, ground (arith, e)))
  | inr e ↦ inr (n, ns, refl, inr (e, ground (arith, e)))
]

abbrev pub plain_list : NodeList
plain_list = record {
  Links = List ℕ;
  empty = [];
  nodes = λ l. l;
  add_tail = λ l n. l ++ n ∷ [];
  pop_head_if = pop_if;
  unlink = λ l n. without n l;
  nodes-empty = refl;
  nodes-add_tail = λ l n. refl;
  pop_head_if_lem = pop_if_lem;
  nodes-unlink = λ l n. refl;
  grab_list_tail = λ l m. l ++ m;
  nodes-grab_list_tail = λ l m. refl;
}

pub record PlainAddress : Type 0 where
  pub kind : Kind
  pub octets : Bytes
  pub port : ℕ

abbrev pub plain_address : NetAddress
plain_address = record {
  Address = PlainAddress;
  unknown = record { kind = unknown_address; octets = []; port = 0 };
  make4 = λ b p. record { kind = is4; octets = b; port = p };
  make6 = λ b p. record { kind = is6; octets = b; port = p };
  kind = λ a. a.kind;
  octets = λ a. a.octets;
  port = λ a. a.port;
  ip = λ a. record a { port = 0 };
  ip_to_string = λ a. a.octets;
  kind-unknown = refl;
  kind-make4 = λ b p. refl;
  kind-make6 = λ b p. refl;
  octets-make4 = λ b p. refl;
  octets-make6 = λ b p. refl;
  port-make4 = λ b p. refl;
  port-make6 = λ b p. refl;
  kind-ip = λ a. refl;
  octets-ip = λ a. refl;
  port-ip = λ a. refl;
}

abbrev pub kind_code : Kind → ℕ
kind_code unknown_address = 0
kind_code is4 = 4
kind_code is6 = 6

kind_code-injective : (k l : Kind) → kind_code k ≡ kind_code l → k ≡ l
kind_code-injective unknown_address unknown_address h = refl
kind_code-injective unknown_address is4 h = absurd (omega (arith, h))
kind_code-injective unknown_address is6 h = absurd (omega (arith, h))
kind_code-injective is4 unknown_address h = absurd (omega (arith, h))
kind_code-injective is4 is4 h = refl
kind_code-injective is4 is6 h = absurd (omega (arith, h))
kind_code-injective is6 unknown_address h = absurd (omega (arith, h))
kind_code-injective is6 is4 h = absurd (omega (arith, h))
kind_code-injective is6 is6 h = refl

abbrev pub plain_beq : PlainAddress → PlainAddress → Bool
plain_beq a b =
    kind_code a.kind == kind_code b.kind && (bytes_eq a.octets b.octets && a.port == b.port)

pub plain_beq_iff : (a b : PlainAddress) → (plain_beq a b ≡ true) ↔ (a ≡ b)
plain_beq_iff a b =
    ground (arith, bytes_eq_iff a.octets b.octets, kind_code-injective a.kind b.kind)

instance abbrev pub plain_address-eq : Eq PlainAddress
plain_address-eq = record { beq = plain_beq; beq_iff = plain_beq_iff }

-- Big-endian 16-bit numbers.
abbrev pub big_endian : Stream
big_endian = record {
  r2 = λ a b. a * 256 + b;
  w2_first = λ n. n / 256;
  w2_second = λ n. n % 256;
  r2_w2 = λ n h. omega arith;
}

-- Two hexadecimal digits for each byte, by their values.
abbrev pub to_digits : Bytes → Bytes
to_digits [] = []
to_digits (b ∷ bs) = b / 16 ∷ b % 16 ∷ to_digits bs

abbrev pub from_digits : Bytes → Bytes
from_digits [] = []
from_digits (h ∷ []) = []
from_digits (h ∷ l ∷ bs) = (h * 16 + l) ∷ from_digits bs

pub from_digits-to_digits : (bs : Bytes) → from_digits (to_digits bs) ≡ bs
from_digits-to_digits [] = refl
from_digits-to_digits (b ∷ bs) = ground (arith, from_digits-to_digits bs)

pub length-to_digits : (bs : Bytes) → length (to_digits bs) ≡ 2 * length bs
length-to_digits [] = refl
length-to_digits (b ∷ bs) = omega (arith, length-to_digits bs)

abbrev pub plain_hex : Hex
plain_hex = record {
  str_to_hex = to_digits;
  hex_to_str = from_digits;
  hex_to_str-str_to_hex = λ bs v. from_digits-to_digits bs;
  length-str_to_hex = length-to_digits;
}

-- The group above the object.
abbrev pub plain_ids : ServerIds
plain_ids = record {
  group_of = λ id. id / 1000 % 256;
  object_id_of = λ id. id % 1000;
  group_of-lt = λ id. omega arith;
}
