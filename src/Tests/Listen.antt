-- ===== src/Tests/Listen.antt =====
-- Runs of shared/netloc.py.
use magic_ai_router.Prelude.{
  ◌≡◌, refl, true, false, none, some, codes, strip, starts_with, has_char, partition, is_space,
  arith,
}
use magic_ai_router.Shared.Netloc.Decimal.{digits_value, decimal_from, decimal}
use magic_ai_router.Shared.Netloc.Ipv6.{split, is_ipv6}
use magic_ai_router.Shared.Netloc.{
  rpartition, parse_bracketed, parse_plain, parse_listen, require_loopback, format_listen,
}
use magic_ai_router.Shared.Netloc.RoundTrip.{parse_listen-format_listen}

listening : Unit {0}
unfolding strip starts_with has_char partition is_space digits_value decimal_from decimal split
    is_ipv6 rpartition parse_bracketed parse_plain parse_listen require_loopback format_listen
listening = tt

parse_listen_tests :
    (parse_listen (codes ":9527") none ≡ some (codes "127.0.0.1", 9527))
    × (parse_listen (codes " [::1]:9527") none ≡ some (codes "::1", 9527))
    × (parse_listen (codes "::1") (some 80) ≡ some (codes "::1", 80))
    × (parse_listen (codes "::1:x") (some 80) ≡ none)
    × (parse_listen (codes "a:70000") none ≡ none)
    × (parse_listen (codes "a") (some 80) ≡ some (codes "a", 80))
unfolding listening
parse_listen_tests = (refl, refl, refl, refl, refl, refl)

is_ipv6_tests :
    (is_ipv6 (codes "1:2:3:4:5:6:7:8") ≡ true)
    × (is_ipv6 (codes "::ffff:1.2.3.4") ≡ true)
    × (is_ipv6 (codes "fe80::1%eth0") ≡ true)
    × (is_ipv6 (codes "1::2::3") ≡ false)
    × (is_ipv6 (codes ":::") ≡ false)
    × (is_ipv6 (codes "::") ≡ true)
    × (is_ipv6 (codes "1:2:3:4:5:6:7:8:9") ≡ false)
    × (is_ipv6 (codes "::1.2.3.04") ≡ false)
    × (is_ipv6 (codes "1:2:3:4:5:6:7::") ≡ true)
    × (is_ipv6 (codes ":1:2:3:4:5:6:7") ≡ false)
unfolding listening
is_ipv6_tests = (refl, refl, refl, refl, refl, refl, refl, refl, refl, refl)

parse_listen-format_listen_example :
    parse_listen (format_listen (codes "::1") 9527) none ≡ some (codes "::1", 9527)
unfolding listening
parse_listen-format_listen_example =
    parse_listen-format_listen b':' (codes ":1") 9527 (omega arith) (omega arith) refl refl refl
