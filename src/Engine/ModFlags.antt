-- ===== src/Engine/ModFlags.antt =====
-- apps/daw_engine_main.cpp: the kinds, the rate and the switch of a link in the 16 bits of its flags.
use unidaw.Base.{ℕ, ◌+◌, ◌*◌, ◌/◌, ◌%◌, Bool, Option, none, some, ◌==◌, if◌then◌else◌}
use unidaw.Modulation.{ModRate, ModSourceKind, ModTargetKind, ModLink}

-- The enumerations as their numbers, and back where a number stands for one.
abbrev pub source_code : ModSourceKind → ℕ
source_code ModSourceKind.macro = 0
source_code ModSourceKind.lfo = 1
source_code ModSourceKind.envelope = 2
source_code ModSourceKind.patcher_node_output = 3

abbrev pub source_kind : ℕ → Option ModSourceKind
source_kind n =
    if n == 0
    then some ModSourceKind.macro
    else if n == 1
    then some ModSourceKind.lfo
    else if n == 2
    then some ModSourceKind.envelope
    else if n == 3
    then some ModSourceKind.patcher_node_output
    else none

abbrev pub target_code : ModTargetKind → ℕ
target_code ModTargetKind.vst_param = 0
target_code ModTargetKind.patcher_param = 1
target_code ModTargetKind.patcher_macro = 2

abbrev pub target_kind : ℕ → Option ModTargetKind
target_kind n =
    if n == 0
    then some ModTargetKind.vst_param
    else if n == 1
    then some ModTargetKind.patcher_param
    else if n == 2
    then some ModTargetKind.patcher_macro
    else none

abbrev pub rate_code : ModRate → ℕ
rate_code ModRate.block_rate = 0
rate_code ModRate.sample_rate = 1

abbrev pub rate_kind : ℕ → Option ModRate
rate_kind n =
    if n == 0 then some ModRate.block_rate else if n == 1 then some ModRate.sample_rate else none

-- The fields of the 16 bits: `&` with a low mask is `%`, and `>>` is a quotient.
unfoldable pub decode_source_kind : ℕ → Option ModSourceKind
decode_source_kind flags = source_kind (flags % 16)

unfoldable pub decode_target_kind : ℕ → Option ModTargetKind
decode_target_kind flags = target_kind (flags / 16 % 16)

unfoldable pub decode_rate : ℕ → Option ModRate
decode_rate flags = rate_kind (flags / 256 % 4)

unfoldable pub decode_enabled : ℕ → Bool
decode_enabled flags = flags / 1024 % 2 == 1

unfoldable pub encode_flags : ModLink → ℕ
encode_flags l =
    source_code l.source.kind
    + target_code l.target.kind * 16
    + rate_code l.rate * 256
    + (if l.enabled then 1024 else 0)
