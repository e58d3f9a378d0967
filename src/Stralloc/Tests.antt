-- ===== src/Stralloc/Tests.antt =====
-- libstralloc/stralloc.c: runs at concrete inputs.
use carrots.Base.{ℕ, ◌≡◌, ◌↔◌, refl, [], ◌∷◌, none, some, Bool, true, false, take, arith}
use carrots.Stralloc.{Stralloc, stralloc_catb, stralloc_starts, text}
use carrots.Stralloc.Allocator.{Memory, alloc}
use carrots.Stralloc.Ready.{IsSound}
use carrots.Stralloc.Text.{Stores, stralloc_catb-Stores}
use carrots.Stralloc.Prefix.{stralloc_starts-prefix}

abbrev malloc : ℕ → Bool
malloc n = false

abbrev fresh : Stralloc
fresh = record { s = none; len = 0; a = 0 }

abbrev memory : Memory
memory = record { avail = 4096; heap_blocks = 0 }

abbrev word : Stralloc
word = record { s = some (record { cells = 97 ∷ 98 ∷ 0 ∷ 7 ∷ []; place = none }); len = 2; a = 3 }

word-IsSound : IsSound word
unfolding IsSound
word-IsSound = (omega arith, omega arith)

fresh-IsSound : IsSound fresh
unfolding IsSound
fresh-IsSound = refl

stralloc_catb-Stores_example :
    Stores word (97 ∷ 98 ∷ 99 ∷ []) (stralloc_catb malloc 7 word (99 ∷ []) memory)
stralloc_catb-Stores_example =
    stralloc_catb-Stores malloc 7 word (99 ∷ []) memory word-IsSound (omega arith)

stralloc_starts-prefix_example :
    (stralloc_starts word (97 ∷ 98 ∷ []) ≡ true) ↔ (take 2 (text word) ≡ 97 ∷ 98 ∷ [])
stralloc_starts-prefix_example =
    stralloc_starts-prefix word (97 ∷ 98 ∷ []) word-IsSound
      ((λ e. absurd (omega (arith, e))), ((λ e. absurd (omega (arith, e))), tt))

alloc_wraps :
    alloc malloc 7 4294967295 memory ≡ (some (record { cells = []; place = some 4096 }), memory)
unfolding alloc
alloc_wraps = refl
