-- ===== src/Window.antt =====
-- windowBuffer.h and windowBuffer.c: the panes of a window and its edges.
pub mod Panes
use rcopy.Base.{
  ℕ, ◌+◌, ◌-◌, ◌%◌, ◌^◌, ◌≡◌, Option, none, some, List, [], ◌∷◌, length, get_elem?, set, u32, leb,
  ◌==◌, if◌then◌else◌, overwrite, Result, ok, stop, exit_failure, div_by_zero, out_of_bounds,
  present, ◌>>=◌,
}

-- `pane`: the bytes of `data` are `content`, MAX_BUFFER of them.
pub record Pane : Type 0 where
  pub seq_num : ℕ
  pub content : List ℕ

abbrev pub max_buffer : ℕ
max_buffer = 1400

abbrev pub max_int_32 : ℕ
max_int_32 = 0xffff_ffff

-- `WindowBuffer`, less the file pointer, which nothing reads.
pub record WindowBuffer : Type 0 where
  pub panes : List Pane
  pub window_size : ℕ
  pub buffer_size : ℕ
  pub lower : ℕ
  pub curr_index : ℕ
  pub upper : ℕ

-- `malloc(n * sizeof(pane))`: a block of panes with whatever they hold, or a null pointer.
abbrev pub Malloc : Type 0
Malloc = ℕ → Option (List Pane)

-- The allocator returns as many panes as it was asked for, each with room for MAX_BUFFER bytes.
pub record IsAllocator (malloc : Malloc) : Type 0 where
  pub panes_given : (n : ℕ) (ps : List Pane) → malloc n ≡ some ps → length ps ≡ n
  pub room_given :
      (n : ℕ) (ps : List Pane) (i : ℕ) (p : Pane)
      → malloc n ≡ some ps
      → get_elem? ps i ≡ some p
      → length p.content ≡ max_buffer

-- The loop of `init_window` over the block.
unfoldable pub reset_panes : List Pane → List Pane
reset_panes [] = []
reset_panes (p ∷ ps) = record p { seq_num = max_int_32 } ∷ reset_panes ps

unfoldable pub init_window : Malloc → ℕ → ℕ → Result WindowBuffer
init_window malloc windowSize bufferSize = present exit_failure (malloc windowSize) >>= λ block.
    ok (record {
      panes = reset_panes block;
      window_size = windowSize;
      buffer_size = bufferSize;
      lower = 0;
      curr_index = 0;
      upper = u32 (windowSize + 2 ^ 32 - 1);
    })

unfoldable pub slide_window : WindowBuffer → ℕ → WindowBuffer
slide_window wb len = record wb { lower = u32 (wb.lower + len); upper = u32 (wb.upper + len) }

unfoldable pub free_window : WindowBuffer → WindowBuffer
free_window wb = record wb { panes = [] }

-- `seq % wb->window_size`
unfoldable pub pane_index : WindowBuffer → ℕ → Result ℕ
pane_index wb seq = if wb.window_size == 0 then stop div_by_zero else ok (seq % wb.window_size)

-- `wb->panes[i]`
unfoldable pub read_pane : WindowBuffer → ℕ → Result Pane
read_pane wb i = present out_of_bounds (get_elem? wb.panes i)

-- Bytes stored into `wb->panes[i].data`, and `wb->panes[i].seq_num` set.
unfoldable pub write_pane : WindowBuffer → ℕ → ℕ → List ℕ → Result WindowBuffer
unfolding read_pane
write_pane wb i seq bytes = read_pane wb i >>= λ p.
    if leb (length bytes) max_buffer
    then ok (record wb {
      panes = set wb.panes i (record { seq_num = seq; content = overwrite bytes p.content });
    })
    else stop out_of_bounds
