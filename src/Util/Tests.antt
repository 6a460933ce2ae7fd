-- ===== src/Util/Tests.antt =====
-- A number in the byte order of the network.
use doorhinges.Base.{◌≡◌, refl, true, arith}
use doorhinges.Util.{mc_swap64, swap_from, ntohll, htonll}
use doorhinges.Util.Swap.{ntohll-htonll}

bytes_turned : mc_swap64 true 0x0102030405060708 ≡ 0x0807060504030201
unfolding mc_swap64 swap_from
bytes_turned = refl

ntohll-htonll_example : ntohll true (htonll true 0x0102030405060708) ≡ 0x0102030405060708
ntohll-htonll_example = ntohll-htonll true 0x0102030405060708 (omega arith)
