-- ===== src/Ures/Config/Usage.antt =====
-- src/ures/config.c, print_usage: the text, and what it says of the options.
use nemo_core.Prelude.{◌≡◌, refl, List, [], ◌∷◌, ◌++◌, map, codes}
use mathlib.Core.List.{flat_map}
use nemo_core.Parse.{Text, Libc}
use nemo_core.Payload.{payload_version}
use nemo_core.Options.Usage.{Printf, conversions, described, table}
use nemo_core.Ures.Config.{opts}

-- The lines of the format; each ends with a newline.
abbrev lines : List Text
lines =
    codes "About:"
    ∷ codes "  Unicast network responder."
    ∷ codes "  Program version: %d.%d.%d"
    ∷ codes "  Payload version: %d"
    ∷ []
    ∷ codes "Usage:"
    ∷ codes "  ures [OPTIONS]"
    ∷ []
    ∷ codes "Options:"
    ∷ codes "  -6      Use the IPv6 protocol."
    ∷ codes "  -a OBJ  Attach a plugin from a shared object file."
    ∷ codes "  -d DUR  Time-out for lack of incoming requests."
    ∷ codes "  -e      Stop the process on first transmission error."
    ∷ codes "  -h      Print this help message."
    ∷ codes "  -k KEY  Unique key for identification of payloads."
    ∷ codes "  -l LEN  Overall accepted payload length."
    ∷ codes "  -m      Disable responding (monologue mode)."
    ∷ codes "  -n      Turn off coloring in the logging output."
    ∷ codes "  -p NUM  UDP port to use for all endpoints. (def=%d)"
    ∷ codes "  -q      Suppress reporting to standard output."
    ∷ codes "  -r RBS  Socket receive memory buffer size. (def=2m)"
    ∷ codes "  -s SBS  Socket send memory buffer size. (def=2m)"
    ∷ codes "  -t TTL  Outgoing IP Time-To-Live value. (def=%d)"
    ∷ codes "  -v      Increase the verbosity of the logging output."
    ∷ []

-- The version numbers, the port and the time-to-live are the constants of the headers and of
-- `set_defaults`.
unfoldable pub print_usage : Printf
print_usage = record {
  format = flat_map (λ l. l ++ (b'\n' ∷ [])) lines;
  args = 1 ∷ 0 ∷ 0 ∷ payload_version ∷ 23000 ∷ 64 ∷ [];
}

-- The usage text describes the options of the table, in its order and with their arguments.
described-opts : (c : Libc) → described lines ≡ table (opts c)
unfolding opts
described-opts c = refl

-- Every conversion of the format is given an argument, and it is a number.
conversions-print_usage : conversions print_usage.format ≡ map (λ x. b'd') print_usage.args
unfolding print_usage flat_map
conversions-print_usage = refl
