-- ===== src/Run/Log/Pack.antt =====
-- The packing of an event identifier into one number: src/app/run/archive.py.
use fin_agent_platform.Prelude.{◌+◌, ◌*◌, ◌<◌, ◌≡◌, ◌∙◌, ltb, arith}
use fin_agent_platform.Prelude.Bits.{shift_left, bit_or-shift_left}
use fin_agent_platform.Run.Log.{EventId, id_lt, pack, unpack}

-- The sequence number fits its 20 bits.
abbrev pub FitsBits : EventId → Type 0
FitsBits id = id.1 < 1048576

pub pack_lem : (id : EventId) → FitsBits id → pack id ≡ id.0 * 1048576 + id.1
unfolding pack shift_left
pack_lem (m, s) h = bit_or-shift_left m 20 s h ∙ omega arith

-- Unpacking the packed identifier gives it back, if its sequence number fits 20 bits.
pub unpack-pack : (id : EventId) → FitsBits id → unpack (pack id) ≡ id
unfolding unpack shift_left
unpack-pack (m, s) h = rw (pack_lem (m, s) h) (ground arith)

-- The packed numbers of two identifiers are ordered as the identifiers are, if their sequence
-- numbers fit 20 bits.
pub ltb-pack : (a b : EventId) → FitsBits a → FitsBits b → ltb (pack a) (pack b) ≡ id_lt a b
ltb-pack (m, s) (n, t) h k = rw (pack_lem (m, s) h, pack_lem (n, t) k) (ground arith)
