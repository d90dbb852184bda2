-- ===== src/Lib.antt =====
-- A model of nemo, two programs that measure latency with UDP datagrams: the requester (src/ureq)
-- sends numbered payloads to its targets, and the responder (src/ures) answers each with its own
-- clocks added. Both stand on src/common.
--
-- Shared types and lemmas:
--   Prelude, Prelude/Lists    numbers, tests, lists indexed by native numbers
--   Prelude/Codes             string literals as bytes
--   Word                      8, 16, 32 and 64-bit integers, shifts and masks
-- src/common:
--   Convert     convert.c: fnanos, tnanos, htonll, ntohll, fipv6, tipv6; and ipv6_part, which
--               src/ureq/target.c and both event.c files repeat
--   Now         now.c: real_now, mono_now
--   Parse       parse.c: parse_uint64, parse_scalar and the unit parsers
--   Payload     payload.h, and socket addresses
--   Channel     channel.c: open_channel with its steps, and the counters
--   Packet      packet.c: encode_payload, decode_payload, send_packet, receive_packet
--   Signal      signal.c: the flags and the masks
--   Plugin      plugin.c: loading, starting, notifying, waiting for and ending plugins
--   Log         log.c: append, highlight, log. Log/Filled is the buffer that highlighting fills,
--               Log/Marked the highlighted text as a plain function
-- Both programs:
--   Options     the option table and the loop over getopt(3) in both config.c files.
--               Options/Reading is the string for getopt(3) as getopt(3) reads it, Options/Usage
--               the usage texts as a table of options
-- src/ures:
--   Ures/Config, Ures/Report, Ures/Event, Ures/Loop, Ures/Main
--               config.c, report.c, event.c, loop.c, main.c
--   Ures/Service  what the responder promises, apart from how: a policy (a key or any, a length or
--               any, or nothing at all), which datagrams make sense, and the replies to what arrives.
--               Ures/Service/Session is how long it serves, with an inactivity timeout
-- src/ureq:
--   Ureq/Config, Ureq/Report, Ureq/Target, Ureq/Event, Ureq/Round, Ureq/Loop, Ureq/Main
--               config.c, report.c, target.c, event.c, round.c, loop.c, main.c.
--               Ureq/Target/Gathered is what load_targets stores, as a plain function
-- Both programs together:
--   Exchange    a request, its answer, and the line that the requester prints. Exchange/Complete
--               is a wait in which any number of answers arrive
--   Network     many of them at once, as steps: a request is sent, a request that was sent arrives
--               and is answered, an answer that was given arrives and is reported. What was sent may
--               be lost, arrive in another order or arrive again, but it arrives whole, and nobody
--               else sends.
-- Tests holds each theorem at a concrete input.
--
-- A definition has the name of the C function. A function that writes through a pointer returns
-- what it wrote; where it may return false the result is an option or carries a Boolean. A channel,
-- the static packet buffer and the signal flags are passed along. Unsigned arithmetic wraps at its
-- width.
--
-- The operating system and the C library are not modelled. A call takes what it returns from an
-- argument: Channel.Answers, Packet.Received, Plugin.StartAnswers, a Loop.Round or an Event.Wait,
-- the Resolver, the Sorting, and for a whole run a Main.Machine. Loops that end on an outside event
-- run over a list of such answers; a list that ends before the loop does leaves it unfinished, which
-- the result says. The loops over arrays recurse on the array or on the count of rounds left. No
-- other bound is chosen. pselect(2) is given 4 as the number of descriptors: Ures/Loop/Watched says
-- what that leaves. Elsewhere an answer of pselect(2) that the socket is ready is taken as that of a
-- socket it looks at, which is descriptor 3 or less.
--
-- The loop over a format in Log.highlight runs on its length plus one as fuel, since each round but
-- the last moves past a percent sign.
--
-- Memory is modelled where the code can leave an array: Target.copy_at and the end of the array of
-- target strings give a fault, and a message that does not fit an array of log an overrun. What
-- log_config, log_channel, log_targets and log_plugins give to the log are the entries in the Shown
-- modules, and the Usage modules hold what print_usage gives to printf(3); what the other functions
-- give to the log is left out, and so is the text that printf(3) makes of a report.
pub mod Channel
pub mod Convert
pub mod Exchange
pub mod Log
pub mod Network
pub mod Now
pub mod Options
pub mod Packet
pub mod Parse
pub mod Payload
pub mod Plugin
pub mod Prelude
pub mod Signal
pub mod Tests
pub mod Ureq
pub mod Ures
pub mod Word
