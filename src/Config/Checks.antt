-- ===== src/Config/Checks.antt =====
-- include/config.hpp: what holds of the settings that `parse_args` accepts, and what it refuses.
use uring_perf.Base.{
  ℕ, ◌^◌, ◌≤◌, ◌<◌, ◌≡◌, refl, true, false, not, ◌&&◌, List, [], ◌∷◌, ◌⊎◌, inl, inr, arith, ℤ, pos,
  negsuc,
}
use uring_perf.Config.Settings.{Config, Mode, Protocol, default_config, is_server}
use uring_perf.Config.Parse.{
  Opt, parsed, exits, Parsing, OptResult, continues, is_empty, max_int, to_word, apply_option,
  size_udp, check_config, parse_from, parse_args,
}

-- An `int` has 32 bits.
abbrev pub IsInt : ℤ → Type 0
IsInt (pos n) = n < 2 ^ 31
IsInt (negsuc n) = n < 2 ^ 31

-- What every worker relies on.
pub record IsValid (c : Config) : Type 0 where
  pub port_word : c.port < 2 ^ 16
  pub threads_range : (1 ≤ c.threads) × (c.threads < 2 ^ 31)
  pub duration_range : (1 ≤ c.duration_sec) × (c.duration_sec < 2 ^ 31)
  pub interval_range : (1 ≤ c.interval_sec) × (c.interval_sec < 2 ^ 31)
  pub queue_range : (16 ≤ c.queue_depth) × (c.queue_depth < 2 ^ 31)
  pub buf_range : (64 ≤ c.buf_size) × (c.buf_size < 2 ^ 31)
  pub in_flight_fixed : c.in_flight ≡ 32
  pub gso_fixed : c.udp_gso_size ≡ 1472
  pub fixed_files_on : c.fixed_files ≡ true

-- The combinations of options that are let through.
pub record IsCoherent (c : Config) : Type 0 where
  pub zcrx_tcp : c.use_zcrx ≡ true → c.protocol ≡ Protocol.tcp
  pub reverse_tcp : c.reverse ≡ true → c.protocol ≡ Protocol.tcp
  pub reverse_client : c.reverse ≡ true → c.mode ≡ Mode.client
  pub zcrx_server_named : c.use_zcrx ≡ true → c.mode ≡ Mode.server → is_empty c.zcrx_ifname ≡ false
  pub zcrx_reverse_named : c.use_zcrx ≡ true → c.reverse ≡ true → is_empty c.zcrx_ifname ≡ false

max_int-range :
    (lo : ℕ) (n : ℤ) → lo < 2 ^ 31 → IsInt n → (lo ≤ max_int lo n) × (max_int lo n < 2 ^ 31)
max_int-range lo (pos n) h i = omega arith
max_int-range lo (negsuc n) h i = omega arith

to_word-lt : (n : ℤ) → to_word 16 n < 2 ^ 16
to_word-lt (pos n) = omega arith
to_word-lt (negsuc n) = omega arith

check_config-IsValid : {c d : Config} → IsValid c → check_config c ≡ parsed d → IsValid d
unfolding check_config
check_config-IsValid v h = ground arith

check_config-IsCoherent : (c : Config) {d : Config} → check_config c ≡ parsed d → IsCoherent d
unfolding check_config
check_config-IsCoherent c h = ground arith

size_udp-IsValid : (p : Parsing) → IsValid p.cfg → IsValid (size_udp p)
unfolding size_udp
size_udp-IsValid p v = ground arith

OptResult-cases :
    (r : OptResult)
    → ((q : Parsing) × (r ≡ continues q)) ⊎ ((code : ℕ) × (r ≡ OptResult.exits code))
OptResult-cases (continues q) = inl (q, refl)
OptResult-cases (OptResult.exits code) = inr (code, refl)

module _ (atoi : List ℕ → ℤ) (ints : (s : List ℕ) → IsInt (atoi s)) where
  apply_option-IsValid :
      (p : Parsing) (o : Opt) {q : Parsing}
      → IsValid p.cfg
      → apply_option atoi p o ≡ continues q
      → IsValid q.cfg
  unfolding apply_option
  apply_option-IsValid p (Opt.port s) v h = ground (arith, to_word-lt (atoi s))
  apply_option-IsValid p (Opt.parallel s) v h =
      ground (arith, max_int-range 1 (atoi s) (omega arith) (ints s))
  apply_option-IsValid p (Opt.len s) v h =
      ground (arith, max_int-range 64 (atoi s) (omega arith) (ints s))
  apply_option-IsValid p (Opt.queue_depth s) v h =
      ground (arith, max_int-range 16 (atoi s) (omega arith) (ints s))
  apply_option-IsValid p (Opt.time s) v h =
      ground (arith, max_int-range 1 (atoi s) (omega arith) (ints s))
  apply_option-IsValid p (Opt.interval s) v h =
      ground (arith, max_int-range 1 (atoi s) (omega arith) (ints s))
  apply_option-IsValid p o v h = ground arith

  parse_from-IsValid :
      (p : Parsing) (os : List Opt) {d : Config}
      → IsValid p.cfg
      → parse_from atoi p os ≡ parsed d
      → IsValid d × IsCoherent d
  unfolding parse_from
  parse_from-IsValid p [] v h =
      (check_config-IsValid (size_udp-IsValid p v) h, check_config-IsCoherent (size_udp p) h)
  parse_from-IsValid p (o ∷ os) {d} v h = elim (OptResult-cases (apply_option atoi p o)) [
    | inl (q, e) ↦ parse_from-IsValid q os (apply_option-IsValid p o v e) (rw (e, parse_from) at h)
    | inr (code, e) ↦ cc (rw (e, parse_from) at h)
  ]

  default_config-IsValid : IsValid default_config
  default_config-IsValid = ground arith

  -- Whatever options are given, where `parse_args` returns settings their numbers are in range (at
  -- least one thread, one second, 64 bytes and 16 entries), zero-copy receive and reverse mode stand
  -- with TCP only, reverse mode with a client only, and the side that receives by zero-copy has an
  -- interface named.
  pub parse_args-IsValid :
      (os : List Opt) {d : Config} → parse_args atoi os ≡ parsed d → IsValid d × IsCoherent d
  unfolding parse_args
  parse_args-IsValid os h = parse_from-IsValid _ os default_config-IsValid h

-- Settings that the checks refuse.
abbrev pub IsRefused : Config → Type 0
IsRefused c =
    ((c.use_zcrx ≡ true)
      × (is_empty c.zcrx_ifname ≡ true)
      × ((c.mode ≡ Mode.server) ⊎ (c.reverse ≡ true)))
    ⊎ ((c.use_zcrx ≡ true) × (c.protocol ≡ Protocol.udp))
    ⊎ ((c.reverse ≡ true) × (c.protocol ≡ Protocol.udp))

-- The checks end the program with code 1 exactly for zero-copy receive without an interface on the
-- side that receives, and for zero-copy receive or reverse mode with UDP. All other settings pass
-- as they are, but that a server drops reverse mode.
pub check_config_exact :
    (c : Config)
    → ((check_config c ≡ exits 1) × IsRefused c)
      ⊎ ((check_config c ≡ parsed (record c { reverse = c.reverse && not (is_server c.mode) }))
          × ¬ IsRefused c)
unfolding check_config
check_config_exact c = ground arith
