-- ===== src/Ureq/Config/Usage.antt =====
-- src/ureq/config.c, print_usage: the text, and what it says of the options.
use nemo_core.Prelude.{◌≡◌, refl, true, false, List, [], ◌∷◌, ◌++◌, map, codes}
use mathlib.Core.List.{flat_map}
use nemo_core.Parse.{Text, Libc}
use nemo_core.Payload.{payload_version, payload_size}
use nemo_core.Options.Usage.{Printf, conversions, described, table, missing}
use nemo_core.Ureq.Config.{opts}

-- The lines of the format; each ends with a newline.
abbrev lines : List Text
lines =
    codes "About:"
    ∷ codes "  Unicast network requester."
    ∷ codes "  Program version: %d.%d.%d"
    ∷ codes "  Payload version: %d"
    ∷ []
    ∷ codes "Usage:"
    ∷ codes "  ureq [OPTIONS] target [target]..."
    ∷ []
    ∷ codes "Arguments:"
    ∷ codes "  target  IPv4/IPv6 address or hostname"
    ∷ []
    ∷ codes "Options:"
    ∷ codes "  -6      Use the IPv6 protocol."
    ∷ codes "  -c CNT  Limit the number of issued requests."
    ∷ codes "  -e      Stop the process on first network error."
    ∷ codes "  -g      Group requests at the start of each round."
    ∷ codes "  -h      Print this help message."
    ∷ codes "  -i DUR  Minimal duration of a request round. (def=1s)"
    ∷ codes "  -j CNT  Upper limit on network target count. (def=%d)"
    ∷ codes "  -k KEY  Key for the current run. (def=%d)"
    ∷ codes "  -l LEN  Extended length of the payload. (def=%d)"
    ∷ codes "  -m      Do not react to responses (monologue mode)."
    ∷ codes "  -n      Turn off colors in logging messages."
    ∷ codes "  -r RBS  Receive memory buffer size."
    ∷ codes "  -s SBS  Send memory buffer size."
    ∷ codes "  -p NUM  UDP port to use for all endpoints. (def=%d)"
    ∷ codes "  -t TTL  Set the Time-To-Live for all published datagrams. (def=%d)"
    ∷ codes "  -u DUR  Duration of the name resolution update period."
    ∷ codes "  -v      Increase the verbosity of the logging output."
    ∷ codes "  -w DUR  Wait time for responses after last request. (def=2s)"
    ∷ []

-- The version numbers and, in order, the limit of targets, the key, the length, the port and the
-- time-to-live that are the defaults.
unfoldable pub print_usage : Printf
print_usage = record {
  format = flat_map (λ l. l ++ (b'\n' ∷ [])) lines;
  args = 1 ∷ 0 ∷ 0 ∷ payload_version ∷ 64 ∷ 0 ∷ payload_size ∷ 23000 ∷ 64 ∷ [];
}

-- The usage text describes nothing but options of the table, and all of them but -a and -q.
described-opts :
    (c : Libc)
    → (missing (described lines) (table (opts c)) ≡ [])
      × (missing (table (opts c)) (described lines) ≡ (b'a', true) ∷ (b'q', false) ∷ [])
unfolding opts
described-opts c = (refl, refl)

-- Every conversion of the format is given an argument, and it is a number.
conversions-print_usage : conversions print_usage.format ≡ map (λ x. b'd') print_usage.args
unfolding print_usage flat_map
conversions-print_usage = refl
