-- ===== src/Config/Parse.antt =====
-- include/config.hpp: `parse_args`. `getopt_long` is the list of the options that it finds, with
-- their arguments; `atoi` is a parameter.
use uring_perf.Base.{
  ℕ, zero, suc, ◌-◌, ◌*◌, ◌%◌, ◌^◌, Bool, true, false, not, ◌&&◌, ◌||◌, List, [], ◌∷◌, ◌++◌, Option,
  none, some, ◌==◌, if◌then◌else◌, length, ℤ, pos, negsuc, max,
}
use uring_perf.Config.Settings.{
  Config, Mode, Protocol, default_config, is_server, is_client, is_udp,
}

-- `unknown` is an option that `getopt_long` does not accept.
pub data Opt : Type 0 where
  server udp reverse zerocopy zcrx no_multishot_recv sqpoll multi_process no_fixed_buf help : Opt
  unknown : Opt
  client port zcrx_if zcrx_queue parallel len queue_depth affinity time interval : List ℕ → Opt

-- `cpus.find(',')` with the parts before and behind the comma.
unfoldable pub cut_at_comma : List ℕ → Option (List ℕ × List ℕ)
cut_at_comma [] = none
cut_at_comma (c ∷ cs) =
    if c == b','
    then some ([], cs)
    else (elim (cut_at_comma cs) [ none ↦ none | some (piece, rest) ↦ some (c ∷ piece, rest) ])

abbrev pub is_empty {ℓ} : {A : Type ℓ} → List A → Bool
is_empty [] = true
is_empty (x ∷ xs) = false

-- std::max(lo, n), of two ints with 0 ≤ lo
abbrev pub max_int : ℕ → ℤ → ℕ
max_int lo (pos n) = max lo n
max_int lo (negsuc n) = lo

-- The conversion of an int to an unsigned word of w bits.
abbrev pub to_word : ℕ → ℤ → ℕ
to_word w (pos n) = n % 2 ^ w
to_word w (negsuc n) = (2 ^ w - suc n % 2 ^ w) % 2 ^ w

pub data ParseResult : Type 0 where
  parsed : Config → ParseResult
  exits : ℕ → ParseResult

-- The settings so far, and `len_user_set`.
pub record Parsing : Type 0 where
  pub cfg : Config
  pub len_user_set : Bool

pub data OptResult : Type 0 where
  continues : Parsing → OptResult
  exits : ℕ → OptResult

module _ (atoi : List ℕ → ℤ) where
  -- The `while` loop of the option A, with the text left and fuel for each comma.
  unfoldable pub affinity_loop : ℕ → List ℕ → List ℤ → List ℤ
  affinity_loop zero cpus list = list
  affinity_loop (suc fuel) cpus list = elim (cut_at_comma cpus) [
    | none ↦ if is_empty cpus then list else list ++ (atoi cpus ∷ [])
    | some (piece, rest) ↦ affinity_loop fuel rest (list ++ (atoi piece ∷ []))
  ]

  -- The text has fewer commas than the fuel.
  unfoldable pub push_affinity : List ℕ → List ℤ → List ℤ
  push_affinity cpus list = affinity_loop (suc (length cpus)) cpus list

  -- The `switch`.
  unfoldable pub apply_option : Parsing → Opt → OptResult
  apply_option p Opt.server = continues (record p { cfg = record p.cfg { mode = Mode.server } })
  apply_option p (client host) =
      continues (record p { cfg = record p.cfg { mode = Mode.client; server_ip = host } })
  apply_option p (port s) =
      continues (record p { cfg = record p.cfg { port = to_word 16 (atoi s) } })
  apply_option p Opt.udp = continues (record p { cfg = record p.cfg { protocol = Protocol.udp } })
  apply_option p reverse = continues (record p { cfg = record p.cfg { reverse = true } })
  apply_option p zerocopy = continues (record p { cfg = record p.cfg { zero_copy = true } })
  apply_option p zcrx = continues (record p { cfg = record p.cfg { use_zcrx = true } })
  apply_option p (zcrx_if s) = continues (record p { cfg = record p.cfg { zcrx_ifname = s } })
  apply_option p (zcrx_queue s) =
      continues (record p { cfg = record p.cfg { zcrx_base_queue = to_word 32 (atoi s) } })
  apply_option p no_multishot_recv =
      continues (record p { cfg = record p.cfg { multishot_recv = false } })
  apply_option p sqpoll = continues (record p { cfg = record p.cfg { sqpoll = true } })
  apply_option p (parallel s) =
      continues (record p { cfg = record p.cfg { threads = max_int 1 (atoi s) } })
  apply_option p multi_process =
      continues (record p { cfg = record p.cfg { multi_process = true } })
  apply_option p (len s) =
      continues
        (record p { cfg = record p.cfg { buf_size = max_int 64 (atoi s) }; len_user_set = true })
  apply_option p (queue_depth s) =
      continues (record p { cfg = record p.cfg { queue_depth = max_int 16 (atoi s) } })
  apply_option p no_fixed_buf =
      continues (record p { cfg = record p.cfg { fixed_buffers = false } })
  apply_option p (affinity s) =
      continues
        (record p { cfg = record p.cfg { cpu_affinity = push_affinity s p.cfg.cpu_affinity } })
  apply_option p (time s) =
      continues (record p { cfg = record p.cfg { duration_sec = max_int 1 (atoi s) } })
  apply_option p (interval s) =
      continues (record p { cfg = record p.cfg { interval_sec = max_int 1 (atoi s) } })
  apply_option p help = exits 0
  apply_option p unknown = exits 1

-- The default size of a datagram batch.
unfoldable pub size_udp : Parsing → Config
size_udp p =
    if not p.len_user_set && is_udp p.cfg.protocol
    then record p.cfg { buf_size = 40 * p.cfg.udp_gso_size }
    else p.cfg

-- The checks behind the loop.
unfoldable pub check_config : Config → ParseResult
check_config cfg =
    if cfg.use_zcrx
      && (is_empty cfg.zcrx_ifname
          && (is_server cfg.mode || (cfg.use_zcrx && (cfg.reverse && is_client cfg.mode))))
    then exits 1
    else if cfg.use_zcrx && is_udp cfg.protocol
    then exits 1
    else if cfg.reverse && is_udp cfg.protocol
    then exits 1
    else if cfg.reverse && is_server cfg.mode
    then parsed (record cfg { reverse = false })
    else parsed cfg

module _ (atoi : List ℕ → ℤ) where
  unfoldable pub parse_from : Parsing → List Opt → ParseResult
  parse_from p [] = check_config (size_udp p)
  parse_from p (o ∷ os) = elim (apply_option atoi p o) [
    | continues q ↦ parse_from q os
    | OptResult.exits code ↦ ParseResult.exits code
  ]

  unfoldable pub parse_args : List Opt → ParseResult
  parse_args = parse_from (record { cfg = default_config; len_user_set = false })
