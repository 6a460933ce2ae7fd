-- ===== src/Machine/Texts.antt =====
-- ngix_module/AIS/ais.c, what `try_read_network` and `try_read_udp` answer after an error, as bytes.
use doorhinges.Base.{ℕ, List, [], ◌∷◌}

-- "SERVER_ERROR out of memory reading request"
abbrev pub out_of_memory : List ℕ
out_of_memory =
    83 ∷ 69 ∷ 82 ∷ 86 ∷ 69 ∷ 82 ∷ 95 ∷ 69 ∷ 82 ∷ 82 ∷ 79 ∷ 82 ∷ 32 ∷ 111 ∷ 117 ∷ 116 ∷ 32 ∷ 111
    ∷ 102 ∷ 32 ∷ 109 ∷ 101 ∷ 109 ∷ 111 ∷ 114 ∷ 121 ∷ 32 ∷ 114 ∷ 101 ∷ 97 ∷ 100 ∷ 105 ∷ 110 ∷ 103
    ∷ 32 ∷ 114 ∷ 101 ∷ 113 ∷ 117 ∷ 101 ∷ 115 ∷ 116 ∷ []

-- "SERVER_ERROR multi-packet request not supported"
abbrev pub not_supported : List ℕ
not_supported =
    83 ∷ 69 ∷ 82 ∷ 86 ∷ 69 ∷ 82 ∷ 95 ∷ 69 ∷ 82 ∷ 82 ∷ 79 ∷ 82 ∷ 32 ∷ 109 ∷ 117 ∷ 108 ∷ 116 ∷ 105
    ∷ 45 ∷ 112 ∷ 97 ∷ 99 ∷ 107 ∷ 101 ∷ 116 ∷ 32 ∷ 114 ∷ 101 ∷ 113 ∷ 117 ∷ 101 ∷ 115 ∷ 116 ∷ 32 ∷ 110
    ∷ 111 ∷ 116 ∷ 32 ∷ 115 ∷ 117 ∷ 112 ∷ 112 ∷ 111 ∷ 114 ∷ 116 ∷ 101 ∷ 100 ∷ []
