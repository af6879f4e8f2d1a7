-- ===== src/Config/Tests.antt =====
-- Command lines, and the theorems at inputs that meet their hypotheses.
use uring_perf.Base.{
  ℕ, ◌-◌, ◌≡◌, refl, not, ◌&&◌, List, [], ◌∷◌, ◌++◌, ◌⊎◌, map, leb, if◌then◌else◌, arith, ℤ, pos,
}
use uring_perf.Config.Settings.{Config, Mode, Protocol, default_config, is_server}
use uring_perf.Config.Parse.{
  Opt, parsed, exits, cut_at_comma, affinity_loop, push_affinity, apply_option, size_udp,
  check_config, parse_from, parse_args,
}
use uring_perf.Config.Affinity.{split, without_empty_last, push_affinity-split}
use uring_perf.Config.Checks.{
  IsInt, IsValid, IsCoherent, IsRefused, parse_args-IsValid, check_config_exact,
}

-- One decimal digit, and 0 for any other text.
abbrev digit : List ℕ → ℤ
digit (d ∷ []) = if leb b'0' d && leb d b'9' then pos (d - 48) else pos 0
digit _ = pos 0

digit-IsInt : (s : List ℕ) → IsInt (digit s)
digit-IsInt [] = omega arith
digit-IsInt (d ∷ []) = ground arith
digit-IsInt (d ∷ e ∷ s) = omega arith

-- "-s -P 4 -A 0,,2,"
abbrev served : List Opt
served =
    Opt.server
    ∷ Opt.parallel (b'4' ∷ [])
    ∷ Opt.affinity (b'0' ∷ b',' ∷ b',' ∷ b'2' ∷ b',' ∷ [])
    ∷ []

abbrev served_config : Config
served_config = record default_config {
  mode = Mode.server;
  threads = 4;
  cpu_affinity = pos 0 ∷ pos 0 ∷ pos 2 ∷ [];
}

served_lem : parse_args digit served ≡ parsed served_config
unfolding parse_args parse_from apply_option push_affinity affinity_loop cut_at_comma size_udp
    check_config
served_lem = refl

-- "-u -R": reverse mode is for TCP only.
refused_lem : parse_args digit (Opt.udp ∷ Opt.reverse ∷ []) ≡ exits 1
unfolding parse_args parse_from apply_option size_udp check_config
refused_lem = refl

-- "-u": the size of a batch of 40 datagrams.
udp_lem :
    parse_args digit (Opt.udp ∷ [])
    ≡ parsed (record default_config { protocol = Protocol.udp; buf_size = 58880 })
unfolding parse_args parse_from apply_option size_udp check_config
udp_lem = refl

parse_args-IsValid_example : IsValid served_config × IsCoherent served_config
parse_args-IsValid_example = parse_args-IsValid digit digit-IsInt served served_lem

check_config_exact_example :
    ((check_config served_config ≡ exits 1) × IsRefused served_config)
    ⊎ ((check_config served_config
          ≡ parsed (record served_config {
            reverse = served_config.reverse && not (is_server Mode.server);
          }))
        × ¬ IsRefused served_config)
check_config_exact_example = check_config_exact served_config

push_affinity-split_example :
    push_affinity digit (b'0' ∷ b',' ∷ b'2' ∷ []) (pos 5 ∷ [])
    ≡ (pos 5 ∷ []) ++ map digit (without_empty_last (split (b'0' ∷ b',' ∷ b'2' ∷ [])))
push_affinity-split_example = push_affinity-split digit (b'0' ∷ b',' ∷ b'2' ∷ []) (pos 5 ∷ [])
