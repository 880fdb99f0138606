-- ===== src/Pa/Http/Target.antt =====
-- The target that a request line names.
use pp.Prelude.{
  ◌*◌, ◌<◌, ◌∙◌, Bool, true, false, ◌&&◌, leb, digits, skip_spaces, saturate, ℕ, zero, suc, ◌+◌,
  ◌-◌, ◌^◌, ◌≡◌, ◌≢◌, [], ◌∷◌, ◌++◌, none, some, Bytes, length, refl, arith, split_line-append, All,
  take, drop-append_more, find_byte, has_prefix_nocase, to_lower, ascii_to_unsigned,
}
use pp.Pa.Types.{Env, Client, consumed, http_raw, http_raw_header}
use pp.Pa.Http.{scan_host, port_or_80, on_connect_line, on_http_challenge, read_url, scheme_offsets}

-- A text that a search for a host passes over.
abbrev pub IsHost : ℕ → Bytes → Type 0
IsHost stop host = All (λ b. (b ≢ b':') × (b ≢ stop)) host

scan_host-port :
    (stop : ℕ) (host s : Bytes)
    → IsHost stop host
    → scan_host stop (host ++ (b':' ∷ s)) ≡ some (host, some s)
unfolding scan_host
scan_host-port stop [] s h = refl
scan_host-port stop (b ∷ host) s h = ground (arith, h.0, scan_host-port stop host s h.1)

scan_host-stop :
    (stop n : ℕ) (host s : Bytes)
    → IsHost stop host
    → stop ≢ b':'
    → n ≡ length host + 1
    → scan_host stop (take n (host ++ (stop ∷ s))) ≡ some (host, none)
unfolding scan_host
scan_host-stop stop zero host s h k e = absurd (omega (arith, e))
scan_host-stop stop (suc n) [] s h k e = ground (arith, k)
scan_host-stop stop (suc n) (b ∷ host) s h k e =
    ground (arith, h.0, scan_host-stop stop n host s h.1 k (omega (arith, e)))

find_byte-append :
    (c : ℕ) (xs ys : Bytes) → All (λ b. b ≢ c) xs → find_byte c (xs ++ (c ∷ ys)) ≡ some (length xs)
unfolding find_byte
find_byte-append c [] ys h = ground arith
find_byte-append c (x ∷ xs) ys h = ground (arith, h.0, find_byte-append c xs ys h.1)

-- "CONNECT host:tail", where `tail` starts with the port.
abbrev pub connect_line : Bytes → Bytes → Bytes
connect_line host tail =
    b'C' ∷ b'O' ∷ b'N' ∷ b'N' ∷ b'E' ∷ b'C' ∷ b'T' ∷ b' ' ∷ (host ++ (b':' ∷ tail))

abbrev pub is_digit : ℕ → Bool
is_digit b = leb b'0' b && leb b b'9'

abbrev pub IsDigits : Bytes → Type 0
IsDigits ds = All (λ b. is_digit b ≡ true) ds

-- What comes behind a number.
abbrev pub NoDigit : Bytes → Type 0
NoDigit [] = Unit
NoDigit (b ∷ s) = is_digit b ≡ false

-- The number that decimal digits stand for, by their places.
abbrev pub decimal : Bytes → ℕ
decimal [] = 0
decimal (b ∷ ds) = (b - b'0') * 10 ^ length ds + decimal ds

digits-stop : (n : ℕ) (after more : Bytes) → NoDigit after → digits n (after ++ (13 ∷ more)) ≡ n
unfolding digits
digits-stop n [] more h = ground arith
digits-stop n (b ∷ after) more h = ground (arith, h)

place : (n d p e q : ℕ) → q ≡ 10 * p → (n * 10 + d) * p + e ≡ n * q + (d * p + e)
place n d p e q h = rw h (grind arith)

digits-decimal :
    (n : ℕ) (ds after more : Bytes)
    → IsDigits ds
    → NoDigit after
    → digits n ((ds ++ after) ++ (13 ∷ more)) ≡ n * 10 ^ length ds + decimal ds
unfolding digits
digits-decimal n [] after more h k = digits-stop n after more k ∙ omega arith
digits-decimal n (b ∷ ds) after more h k = rw h.0 (
    digits-decimal (n * 10 + (b - b'0')) ds after more h.1 k
    ∙ place n (b - b'0') (10 ^ length ds) (decimal ds) (10 ^ suc (length ds)) (omega arith))

ascii_to_unsigned-decimal :
    (d : ℕ) (ds after more : Bytes)
    → IsDigits (d ∷ ds)
    → NoDigit after
    → decimal (d ∷ ds) < 2 ^ 16
    → ascii_to_unsigned (2 ^ 16) (((d ∷ ds) ++ after) ++ (13 ∷ more)) ≡ decimal (d ∷ ds)
unfolding ascii_to_unsigned skip_spaces saturate
ascii_to_unsigned-decimal d ds after more h k small =
    ground (arith, h.0, small, digits-decimal 0 (d ∷ ds) after more h k)

-- A complete CONNECT line without a carriage return, with a host that is not empty and has no ':'
-- and no space, a ':', digits that stand for a number below 2^16, and anything behind them that does
-- not start with a digit, gives the host and that number as the target, and is consumed with its
-- end.
pub on_http_challenge-connect :
    {Address : Type 0} (env : Env Address) (b : ℕ) (host : Bytes) (d : ℕ) (ds after rest : Bytes)
    (c : Client Address)
    → IsHost b' ' (b ∷ host)
    → IsDigits (d ∷ ds)
    → NoDigit after
    → decimal (d ∷ ds) < 2 ^ 16
    → All (λ b. b ≢ 13) (connect_line (b ∷ host) ((d ∷ ds) ++ after))
    → on_http_challenge env (connect_line (b ∷ host) ((d ∷ ds) ++ after) ++ (13 ∷ 10 ∷ rest)) c
      ≡ record {
        client = record c {
          http = record c.http { target_host = b ∷ host; target_port = decimal (d ∷ ds) };
          proxy_type = http_raw;
          data_processor = http_raw_header;
        };
        effects = [];
        result = consumed (length (connect_line (b ∷ host) ((d ∷ ds) ++ after)) + 2);
      }
unfolding on_http_challenge on_connect_line port_or_80 has_prefix_nocase to_lower
on_http_challenge-connect env b host d ds after rest c h digits k small no_return = ground (
  arith,
  split_line-append (connect_line (b ∷ host) ((d ∷ ds) ++ after)) rest no_return,
  scan_host-port b' ' (b ∷ host) ((d ∷ ds) ++ after) h,
  ascii_to_unsigned-decimal d ds after (10 ∷ (rest ++ env.behind_packet)) digits k small,
)

abbrev pub http_scheme : Bytes → Bytes
http_scheme s = b'h' ∷ b't' ∷ b't' ∷ b'p' ∷ b':' ∷ b'/' ∷ b'/' ∷ s

abbrev pub https_scheme : Bytes → Bytes
https_scheme s = b'h' ∷ b't' ∷ b't' ∷ b'p' ∷ b's' ∷ b':' ∷ b'/' ∷ b'/' ∷ s

-- A URL of the scheme "https" gives an empty host and the port 0, whatever it names.
pub read_url-https : (tail : Bytes) → read_url (https_scheme tail) ≡ some ([], 0, b'/' ∷ tail)
unfolding read_url scheme_offsets has_prefix_nocase to_lower find_byte scan_host
read_url-https tail = refl

-- A URL of the scheme "http" with a host that has no ':' and no '/', and no port, gives this host,
-- the port 80, and the path.
pub read_url-http :
    (host path : Bytes)
    → IsHost b'/' host
    → read_url (http_scheme (host ++ (b'/' ∷ path))) ≡ some (host, 80, b'/' ∷ path)
unfolding read_url scheme_offsets has_prefix_nocase to_lower port_or_80
read_url-http host path h = ground (
  arith,
  find_byte-append b'/' host path (no_slash host h),
  scan_host-stop b'/' (7 + length host + 1 - 7) host path h (λ e. absurd (omega (arith, e)))
      (omega arith),
  drop-append_more (length host) 0 host (b'/' ∷ path) (omega arith),
)
  where
    no_slash : (host : Bytes) → IsHost b'/' host → All (λ b. b ≢ b'/') host
    no_slash [] h = tt
    no_slash (b ∷ host) h = (h.0.1, no_slash host h.1)
