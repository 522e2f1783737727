-- ===== src/Kernels/Delayed/Runs.antt =====
-- How many `nop`s each of the macros of cpu_micro/kernels_common.h executes.
use mm_mem.Kernels.Macros.{
  mn1, mn2, mn4, mn8, mn16, mn32, mn48, mn64, mn80, mn88, mn96, mn104, mn112, mn128, mn160, mn192,
  mn224, mn256, mn320, mn384, mn448, mn512, mn640, mn768, mn1024, mn1536, mn2048,
}
use mm_mem.Kernels.Delayed.{IsIdle, IsIdle-nop, IsIdle-▹}

pub mn1-IsIdle : IsIdle 1 mn1
unfolding mn1
mn1-IsIdle = IsIdle-nop

pub mn2-IsIdle : IsIdle 2 mn2
unfolding mn2
mn2-IsIdle = IsIdle-▹ mn1-IsIdle mn1-IsIdle

pub mn4-IsIdle : IsIdle 4 mn4
unfolding mn4
mn4-IsIdle = IsIdle-▹ mn2-IsIdle mn2-IsIdle

pub mn8-IsIdle : IsIdle 8 mn8
unfolding mn8
mn8-IsIdle = IsIdle-▹ mn4-IsIdle mn4-IsIdle

pub mn16-IsIdle : IsIdle 16 mn16
unfolding mn16
mn16-IsIdle = IsIdle-▹ mn8-IsIdle mn8-IsIdle

pub mn32-IsIdle : IsIdle 32 mn32
unfolding mn32
mn32-IsIdle = IsIdle-▹ mn16-IsIdle mn16-IsIdle

pub mn48-IsIdle : IsIdle 48 mn48
unfolding mn48
mn48-IsIdle = IsIdle-▹ mn16-IsIdle mn32-IsIdle

pub mn64-IsIdle : IsIdle 64 mn64
unfolding mn64
mn64-IsIdle = IsIdle-▹ mn32-IsIdle mn32-IsIdle

pub mn80-IsIdle : IsIdle 80 mn80
unfolding mn80
mn80-IsIdle = IsIdle-▹ mn32-IsIdle mn48-IsIdle

pub mn88-IsIdle : IsIdle 88 mn88
unfolding mn88
mn88-IsIdle = IsIdle-▹ mn32-IsIdle (IsIdle-▹ mn48-IsIdle mn8-IsIdle)

pub mn96-IsIdle : IsIdle 96 mn96
unfolding mn96
mn96-IsIdle = IsIdle-▹ mn32-IsIdle mn64-IsIdle

pub mn104-IsIdle : IsIdle 120 mn104
unfolding mn104
mn104-IsIdle = IsIdle-▹ mn64-IsIdle (IsIdle-▹ mn48-IsIdle mn8-IsIdle)

pub mn112-IsIdle : IsIdle 112 mn112
unfolding mn112
mn112-IsIdle = IsIdle-▹ mn64-IsIdle mn48-IsIdle

pub mn128-IsIdle : IsIdle 128 mn128
unfolding mn128
mn128-IsIdle = IsIdle-▹ mn64-IsIdle mn64-IsIdle

pub mn160-IsIdle : IsIdle 160 mn160
unfolding mn160
mn160-IsIdle = IsIdle-▹ mn64-IsIdle mn96-IsIdle

pub mn192-IsIdle : IsIdle 192 mn192
unfolding mn192
mn192-IsIdle = IsIdle-▹ mn64-IsIdle mn128-IsIdle

pub mn224-IsIdle : IsIdle 224 mn224
unfolding mn224
mn224-IsIdle = IsIdle-▹ mn64-IsIdle mn160-IsIdle

pub mn256-IsIdle : IsIdle 256 mn256
unfolding mn256
mn256-IsIdle = IsIdle-▹ mn128-IsIdle mn128-IsIdle

pub mn320-IsIdle : IsIdle 320 mn320
unfolding mn320
mn320-IsIdle = IsIdle-▹ mn128-IsIdle mn192-IsIdle

pub mn384-IsIdle : IsIdle 384 mn384
unfolding mn384
mn384-IsIdle = IsIdle-▹ mn128-IsIdle mn256-IsIdle

pub mn448-IsIdle : IsIdle 448 mn448
unfolding mn448
mn448-IsIdle = IsIdle-▹ mn256-IsIdle mn192-IsIdle

pub mn512-IsIdle : IsIdle 512 mn512
unfolding mn512
mn512-IsIdle = IsIdle-▹ mn256-IsIdle mn256-IsIdle

pub mn640-IsIdle : IsIdle 640 mn640
unfolding mn640
mn640-IsIdle = IsIdle-▹ mn256-IsIdle mn384-IsIdle

pub mn768-IsIdle : IsIdle 768 mn768
unfolding mn768
mn768-IsIdle = IsIdle-▹ mn256-IsIdle mn512-IsIdle

pub mn1024-IsIdle : IsIdle 1024 mn1024
unfolding mn1024
mn1024-IsIdle = IsIdle-▹ mn512-IsIdle mn512-IsIdle

pub mn1536-IsIdle : IsIdle 1536 mn1536
unfolding mn1536
mn1536-IsIdle = IsIdle-▹ mn512-IsIdle mn1024-IsIdle

pub mn2048-IsIdle : IsIdle 2048 mn2048
unfolding mn2048
mn2048-IsIdle = IsIdle-▹ mn1024-IsIdle mn1024-IsIdle
