-- ===== src/Storage/Handler/Laws.antt =====
-- Reads through a map that covers the whole file.
use schema_js.Prelude.{ℕ, ◌+◌, ◌≡◌, ◌++◌, some, length, take_all, get_range-append, arith}
use schema_js.Prelude.Bytes.{Bytes}
use schema_js.Storage.Handler.Defs.{DataHandler, mapped, read_pointer}

-- The map is as long as the file.
abbrev pub IsSynced : DataHandler → Type 0
IsSynced h = h.map_len ≡ length h.file.bytes

pub mapped-IsSynced : (h : DataHandler) → IsSynced h → mapped h ≡ h.file.bytes
mapped-IsSynced h synced = take_all h.map_len h.file.bytes (omega arith)

-- A read of exactly the middle part returns it.
pub read_pointer-append :
    (h : DataHandler) (front middle back : Bytes) (start count : ℕ)
    → IsSynced h
    → h.file.bytes ≡ front ++ (middle ++ back)
    → length front ≡ start
    → length middle ≡ count
    → read_pointer h start count ≡ some middle
unfolding read_pointer
read_pointer-append h front middle back start count synced e p q =
    rw (mapped-IsSynced h synced, e)
      (get_range-append front middle back start (start + count) p (omega arith))
