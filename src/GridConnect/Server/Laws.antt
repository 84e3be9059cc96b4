-- ===== src/GridConnect/Server/Laws.antt =====
-- What the server of GridConnectPicoW/CBUSGridConnect.cpp relies on in lwIP's packet buffers, as lwIP documents them: a buffer
-- holds a text, pbuf_memfind answers the position of a character or 0xFFFF, pbuf_copy_partial copies what lies there,
-- pbuf_put_at writes one character, pbuf_cat joins.
use cbuspico_lib.Common.{ℕ, ◌+◌, ◌≡◌, Option, none, some, List, ◌++◌, length, set, take, drop}
use cbuspico_lib.GridConnect.Server.{Lwip, not_found}
use cbuspico_lib.GridConnect.Server.Index.{index}

abbrev pub position : ℕ → Option ℕ → ℕ
position start none = not_found
position start (some i) = start + i

pub record LwipLaws {P : Type 0} (w : Lwip P) : Type 0 where
  pub contents : P → List ℕ
  pub total : (p : P) → w.tot_len p ≡ length (contents p)
  pub found :
      (p : P) (b start : ℕ)
      → w.memfind p b start ≡ position start (index b (drop start (contents p)))
  pub copied :
      (p : P) (len start : ℕ) → w.copy_partial p len start ≡ take len (drop start (contents p))
  pub written : (p : P) (i b : ℕ) → contents (w.put_at p i b) ≡ set (contents p) i b
  pub joined : (p q : P) → contents (w.cat p q) ≡ contents p ++ contents q

-- pbuf_alloc does not run out of memory.
abbrev pub Allocates : {P : Type 0} {w : Lwip P} → LwipLaws w → Type 0
Allocates {P} {w} laws = (n : ℕ) → (p : P) × (w.alloc n ≡ some p) × (length (laws.contents p) ≡ n)
