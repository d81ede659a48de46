-- ===== src/Worker/Webhook.antt =====
-- `fire_webhook` and `is_local_webhook` of src/worker.rs. A URL's host is what `Url::parse` and
-- `host()` give; an address is its number. `post` is what the target answers to each attempt: a
-- status, or none for an error of the request.
use Prim.Native.Char.{code}
use Prim.Native.String.{String, [], ◌∷◌}
use fire_ctrl.Prelude.{
  ℕ, zero, suc, ◌+◌, ◌*◌, ◌/◌, ◌^◌, ◌≤◌, min, ◌≡◌, refl, Bool, true, false, not, ◌&&◌, ◌||◌, Option,
  none, some, List, [] as nil, ◌∷◌ as cons, arith, length, ltb, leb, ◌==◌, if◌then◌else◌,
}

pub data Host : Type 0 where
  domain : String → Host
  ipv4 : ℕ → Host
  ipv6 : ℕ → Host

-- `char::to_ascii_lowercase`, on codes.
abbrev lower : ℕ → ℕ
lower k = if leb b'A' k && leb k b'Z' then k + 32 else k

eq_ignore_ascii_case : String → String → Bool
eq_ignore_ascii_case [] [] = true
eq_ignore_ascii_case [] (d ∷ t) = false
eq_ignore_ascii_case (c ∷ s) [] = false
eq_ignore_ascii_case (c ∷ s) (d ∷ t) = lower (code c) == lower (code d) && eq_ignore_ascii_case s t

-- The address lies in the block of this prefix, whose suffix has so many bits.
abbrev in_block : ℕ → ℕ → ℕ → Bool
in_block prefix bits n = n / 2 ^ bits == prefix

-- 127/8, 10/8, 172.16/12, 192.168/16, 169.254/16, 255.255.255.255, 0.0.0.0 and 224/4.
abbrev is_local_ipv4 : ℕ → Bool
is_local_ipv4 n =
    in_block 127 24 n
    || (in_block 10 24 n || in_block 2753 20 n || in_block 49320 16 n)
    || in_block 43518 16 n
    || n == 4294967295
    || n == 0
    || in_block 14 28 n

-- ::1, fc00::/7, fe80::/10, :: and ff00::/8.
abbrev is_local_ipv6 : ℕ → Bool
is_local_ipv6 n =
    n == 1 || in_block 126 121 n || in_block 1018 118 n || n == 0 || in_block 255 120 n

pub is_local_webhook : Option Host → Bool
unfolding eq_ignore_ascii_case
is_local_webhook none = false
is_local_webhook (some (Host.domain d)) = eq_ignore_ascii_case d "localhost"
is_local_webhook (some (Host.ipv4 n)) = is_local_ipv4 n
is_local_webhook (some (Host.ipv6 n)) = is_local_ipv6 n

abbrev pub is_success : Option ℕ → Bool
is_success none = false
is_success (some s) = leb 200 s && ltb s 300

-- What is tried again: an error of the request, a server error, or 429.
abbrev pub is_retryable : Option ℕ → Bool
is_retryable none = true
is_retryable (some s) = (leb 500 s && ltb s 600) || s == 429

-- Whether it was delivered, how many requests were sent, and the pauses in milliseconds.
pub record Delivery : Type 0 where
  pub delivered : Bool
  pub posts : ℕ
  pub slept : List ℕ

abbrev once : Bool → Delivery
once d = record { delivered = d; posts = 1; slept = nil }

abbrev again : ℕ → Delivery → Delivery
again backoff d = record {
  delivered = d.delivered;
  posts = suc d.posts;
  slept = cons backoff d.slept;
}

-- `left` attempts remain.
deliver : (ℕ → Option ℕ) → ℕ → ℕ → ℕ → Delivery
deliver post zero attempt backoff = record { delivered = false; posts = 0; slept = nil }
deliver post (suc left) attempt backoff =
    let rest = deliver post left (suc attempt) (min (backoff * 2) 2000) in
    if is_success (post attempt)
    then once true
    else if not (is_retryable (post attempt)) || attempt == 2
    then once false
    else again backoff rest

pub fire_webhook : Bool → Option Host → (ℕ → Option ℕ) → Delivery
unfolding deliver is_local_webhook
fire_webhook allow_local_webhooks host post =
    if not allow_local_webhooks && is_local_webhook host
    then record { delivered = false; posts = 0; slept = nil }
    else deliver post 3 0 200

abbrev pub sum : List ℕ → ℕ
sum nil = 0
sum (cons n ns) = n + sum ns

abbrev pub is_blocked : Bool → Option Host → Bool
unfolding is_local_webhook
is_blocked allow_local_webhooks host = not allow_local_webhooks && is_local_webhook host

-- A delivery within three attempts: each attempt succeeds, or may be tried again.
abbrev pub gets_through : (ℕ → Option ℕ) → Bool
gets_through post =
    is_success (post 0)
    || is_retryable (post 0)
      && (is_success (post 1) || is_retryable (post 1) && is_success (post 2))

-- A webhook is delivered exactly when its target is allowed and one of three attempts succeeds after
-- attempts that may be repeated. A blocked target gets no request; any other gets one request and one
-- more for each pause, at most three, with pauses of at most six tenths of a second in all.
pub fire_webhook_lem :
    (allow_local_webhooks : Bool) (host : Option Host) (post : ℕ → Option ℕ)
    → ((fire_webhook allow_local_webhooks host post).delivered
        ≡ (not (is_blocked allow_local_webhooks host) && gets_through post))
      × ((fire_webhook allow_local_webhooks host post).posts ≡ (
          if is_blocked allow_local_webhooks host
          then 0
          else suc (length (fire_webhook allow_local_webhooks host post).slept)))
      × ((fire_webhook allow_local_webhooks host post).posts ≤ 3)
      × (sum (fire_webhook allow_local_webhooks host post).slept ≤ 600)
unfolding fire_webhook is_blocked deliver
fire_webhook_lem allow_local_webhooks host post =
    cases (not allow_local_webhooks && is_local_webhook host)
  where
    d : Bool → Delivery
    d b = if b then record { delivered = false; posts = 0; slept = nil } else deliver post 3 0 200

    cases :
        (b : Bool)
        → ((d b).delivered ≡ (not b && gets_through post))
          × ((d b).posts ≡ (if b then 0 else suc (length (d b).slept)))
          × ((d b).posts ≤ 3)
          × (sum (d b).slept ≤ 600)
    cases true = (refl, refl, omega arith, omega arith)
    cases false = (ground arith, ground arith, ground arith, ground arith)
