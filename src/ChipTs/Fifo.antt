-- ===== src/ChipTs/Fifo.antt =====
-- src/drivers/st_fifo_ts.h: the burst's anchor from the timestamp words in the FIFO.
use imud.Prelude.{
  ℕ, ◌+◌, ◌-◌, Bool, true, false, not, ◌&&◌, ◌||◌, List, [], ◌∷◌, Option, none, some, ltb, leb,
  ◌==◌, if◌then◌else◌, length, bit_and, drop,
}
use imud.Types.{ImuSample}
use imud.Wire.{Bytes, byte_at, shr, wire_get_u32}
use imud.ChipTs.{sub32, add32, mul32, is_negative}

-- `ST_TAG_CNT`
abbrev pub st_tag_cnt : ℕ → ℕ
st_tag_cnt b = bit_and (shr b 1) 0x03

abbrev pub st_ts_max_lag_ticks : ℕ
st_ts_max_lag_ticks = 40000

-- `st_fifo_ts_t`
pub record StFifoTs : Type 0 where
  pub have_word : Bool
  pub idx : ℕ
  pub ts : ℕ
  pub have_set : Bool
  pub set_cnt : ℕ

unfoldable pub st_fifo_ts_begin : StFifoTs
st_fifo_ts_begin = record { have_word = false; idx = 0; ts = 0; have_set = false; set_cnt = 0 }

unfoldable pub st_fifo_ts_dec_batch : ℕ → ℕ
st_fifo_ts_dec_batch fifo_wm = if leb 32 fifo_wm then 0x3 else if leb 8 fifo_wm then 0x2 else 0x0

unfoldable pub st_fifo_ts_note_set : StFifoTs → ℕ → StFifoTs
st_fifo_ts_note_set s tag_byte = record s { set_cnt = st_tag_cnt tag_byte; have_set = true }

-- `none` is a negative index: the word names a set before the first.
unfoldable pub word_index : StFifoTs → ℕ → ℕ → Option ℕ
word_index s tag produced =
    if s.have_set && st_tag_cnt tag == s.set_cnt
    then if produced == 0 then none else some (produced - 1)
    else some produced

unfoldable pub st_fifo_ts_note_word : StFifoTs → Bytes → ℕ → StFifoTs
unfolding word_index wire_get_u32
st_fifo_ts_note_word s word produced = elim (word_index s (byte_at word 0) produced) [
  | none ↦ s
  | some idx ↦ record s { ts = wire_get_u32 (drop 1 word); idx = idx; have_word = true }
]

-- `for (i = 0; i < produced; i++) buf[i].chip_ts = s->ts + (uint32_t)(i - s->idx) * ticks`
unfoldable pub stamp_from_anchor : StFifoTs → ℕ → ℕ → List ImuSample → List ImuSample
stamp_from_anchor s ticks i [] = []
stamp_from_anchor s ticks i (x ∷ xs) =
    record x { chip_ts = add32 s.ts (mul32 (sub32 i s.idx) ticks) }
    ∷ stamp_from_anchor s ticks (i + 1) xs

-- The stamp that the newest sample would get.
unfoldable pub newest_from_anchor : StFifoTs → ℕ → ℕ → ℕ
newest_from_anchor s produced ticks = add32 s.ts (mul32 (produced - 1 - s.idx) ticks)

-- `none` is the result false, at which `buf` is as it was.
unfoldable pub st_fifo_ts_apply : StFifoTs → List ImuSample → ℕ → ℕ → Option (List ImuSample)
st_fifo_ts_apply s buf ticks_per_sample now_ts =
    let lag = sub32 now_ts (newest_from_anchor s (length buf) ticks_per_sample) in
    if not s.have_word || leb (length buf) 0
    then none
    else if leb (length buf) s.idx
    then none
    else if is_negative lag || ltb st_ts_max_lag_ticks lag
    then none
    else some (stamp_from_anchor s ticks_per_sample 0 buf)
