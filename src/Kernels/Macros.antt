-- ===== src/Kernels/Macros.antt =====
-- The repetition macros of cpu_micro/kernels_common.h.
use mm_mem.Kernels.Code.{Code, rd, wr, nop, ◌▹◌}

abbrev pub rd32 : Code
rd32 = rd

abbrev pub wr32 : Code
wr32 = wr

unfoldable pub lp1 : Code → Code
lp1 x = x

unfoldable pub lp2 : Code → Code
lp2 x = x ▹ x

unfoldable pub lp3 : Code → Code
lp3 x = x ▹ x ▹ x

unfoldable pub lp4 : Code → Code
lp4 x = lp2 x ▹ lp2 x

unfoldable pub lp5 : Code → Code
lp5 x = lp3 x ▹ lp2 x

unfoldable pub lp6 : Code → Code
lp6 x = lp4 x ▹ lp2 x

unfoldable pub lp8 : Code → Code
lp8 x = lp4 x ▹ lp4 x

unfoldable pub lp16 : Code → Code
lp16 x = lp8 x ▹ lp8 x

unfoldable pub lp32 : Code → Code
lp32 x = lp16 x ▹ lp16 x

unfoldable pub lp42 : Code → Code
lp42 x = lp32 x ▹ lp8 x ▹ lp2 x

unfoldable pub lp64 : Code → Code
lp64 x = lp32 x ▹ lp32 x

unfoldable pub lp128 : Code → Code
lp128 x = lp64 x ▹ lp64 x

unfoldable pub lp256 : Code → Code
lp256 x = lp128 x ▹ lp128 x

unfoldable pub mn1 : Code
mn1 = nop

unfoldable pub mn2 : Code
mn2 = mn1 ▹ mn1

unfoldable pub mn4 : Code
mn4 = mn2 ▹ mn2

unfoldable pub mn8 : Code
mn8 = mn4 ▹ mn4

unfoldable pub mn16 : Code
mn16 = mn8 ▹ mn8

unfoldable pub mn32 : Code
mn32 = mn16 ▹ mn16

unfoldable pub mn48 : Code
mn48 = mn16 ▹ mn32

unfoldable pub mn64 : Code
mn64 = mn32 ▹ mn32

unfoldable pub mn80 : Code
mn80 = mn32 ▹ mn48

unfoldable pub mn88 : Code
mn88 = mn32 ▹ mn48 ▹ mn8

unfoldable pub mn96 : Code
mn96 = mn32 ▹ mn64

unfoldable pub mn104 : Code
mn104 = mn64 ▹ mn48 ▹ mn8

unfoldable pub mn112 : Code
mn112 = mn64 ▹ mn48

unfoldable pub mn128 : Code
mn128 = mn64 ▹ mn64

unfoldable pub mn160 : Code
mn160 = mn64 ▹ mn96

unfoldable pub mn192 : Code
mn192 = mn64 ▹ mn128

unfoldable pub mn224 : Code
mn224 = mn64 ▹ mn160

unfoldable pub mn256 : Code
mn256 = mn128 ▹ mn128

unfoldable pub mn320 : Code
mn320 = mn128 ▹ mn192

unfoldable pub mn384 : Code
mn384 = mn128 ▹ mn256

unfoldable pub mn448 : Code
mn448 = mn256 ▹ mn192

unfoldable pub mn512 : Code
mn512 = mn256 ▹ mn256

unfoldable pub mn640 : Code
mn640 = mn256 ▹ mn384

unfoldable pub mn768 : Code
mn768 = mn256 ▹ mn512

unfoldable pub mn1024 : Code
mn1024 = mn512 ▹ mn512

unfoldable pub mn1536 : Code
mn1536 = mn512 ▹ mn1024

unfoldable pub mn2048 : Code
mn2048 = mn1024 ▹ mn1024
