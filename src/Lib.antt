-- ===== src/Lib.antt =====
-- A verification library for the C programs of this repository and its scheduler in Go: a ticket
-- reservation system and a calculator, each a threaded server and a client over TCP, a shell, an echo
-- server that reverses what it gets, and the simulation of a scheduler with feedback queues. Definitions
-- follow the source function by function; where one function of the source is long, its parts have names
-- of their own.
--
-- Base        Lists and Boolean tests over native numbers; `Exec`, what a piece of C code does: it
--             yields a value (`ok`), calls `exit` (`exits`), or its behaviour is undefined
--             (`undefined`: an access out of bounds, a read of bytes never written, a signed overflow
--             of int); `Int`, the values of int and their sums.
-- Libc        The library calls that the programs rest on, by their documented behaviour: C strings,
--             strncmp, strcpy, memset and fgets on lists of bytes; printf of %d and atoi.
-- Sockets     The system calls of the two threaded servers, and the loops of their main: accept, join, close
-- Reservation networking/networking_reservation_system_c
--   Request     constants.h, and how server.c reads the two numbers of a request
--   Server      handle_client of server.c: the globals AC and SL with the log (`Shared`), the locals of a
--               thread (`Thread`), a booking (`book`), a message (`dispatch`), a round of the loop
--               (`round`) and the loop (`serve`)
--   Client      main of client.c and clientUtils.h: the buffers it fills, what it sends, and how it
--               settles an answer; a round of its menu (`menu`)
--   Exchange    one purchase, and one greeting, by the functions of both programs
--   Fleet       server and clients as a step relation, a round of one thread at a time
--   Race        the six accesses to AC and SL in a booking, interleaved between two threads
--   Startup     main of server.c with serverUtils.h: login, sockets and the calls in their order
-- Calculator  networking/calculator_client_server_c
--   Arithmetic  double and its operations, a parameter
--   Evaluate    the pass of problem3.c over a query with a stack of 50 places
--   Server      handle_client of problem3.c: query, result, log, farewell, the loop
--   Server/Mutex  the threads of handle_client interleaved, an action at a time: recv, lock, evaluate and
--               send, record, unlock; and the same threads a whole round at a time
--   Client      main of client.c with clientUtils.h: what it sends for a typed line, what it shows of an
--               answer, its loop, and sessions with a thread of the server
--   Startup     main of problem3.c with serverUtils.h: mutex, sockets, accept, join and close
-- Shell       MP-1: shell/my_shell.c
--   Tokenize    tokenize and shiftLeft
--   Jobs        the table backgroundTasks: recorded, reaped and killed processes
--   Loop        main: a line, its words, what the first says, sessions of such lines, and the jobs that are
--               interrupted at the end
-- Echo        networking/practice_getstarted
--   Server      main of server.c: five clients one by one, with the two buffers that they share; where the
--               server waits for a client or a message, the state is the one in which it waits
--   Client      client.c, and several clients with the server
-- Mlfq        MLFQ
--   Scheduler   constants.go, and main.go: the state and its queues (Scheduler/Table), a unit of time of
--               the job that runs, one pass of the loop of main (`pass`), and the loop (`run`)
--   Sums        sums over the jobs, and how often a list holds a job
--   Invariant   where the jobs stand; Queues, Arrivals, Io, Boost, Runs, Expiry, Ticks, Finish and Jobs
--               follow the parts of a pass; Loop, Passes and Ends go through the loop to its end
--
-- State is passed explicitly. What a system call returns is an argument (`Calls`, `Received`, `Inputs`,
-- `Answers`), so that a theorem covers every failure of it. Loops recurse on the list that they go
-- through or on the events that drive them. The printing of a number has fuel, 10 digits, which every
-- int has at most; the loop of the scheduler is given the passes counted in Mlfq/Loop (`to_do`): six for
-- each unit of run time left, and one for each unit of time up to the last start or end of I/O. The
-- scheduler's integers are unbounded, and what it reads is not negative. Theorems on `Exec` say that the
-- code yields a value where it does, and otherwise what holds of whatever value it yields. A message
-- arrives as it was sent, in one piece; the order of rounds is free in Fleet, and the order of single
-- accesses is free in Race. The number of places in the memory for the shell's tokens is an argument of
-- its loop: malloc is asked for 64, and may give more.
--
-- Not modelled: the text printed by printf and perror; what a child of the shell does between fork and
-- exec, and the shell's signal handlers; what the scheduler reads and prints; the
-- other programs in Go (floating point with a hash of Go's library, and goroutines over files), and those in
-- Python and assembly.
pub mod Base
pub mod Libc
pub mod Sockets
pub mod Reservation
pub mod Calculator
pub mod Shell
pub mod Echo
pub mod Mlfq
