-- ===== src/Lib.antt =====
-- A verification library for the programs of the repository: the encryption of files inside the
-- kernel (Practica2) with the programs of the user that call it, the memory statistics of the
-- kernel and the server that publishes them (Proyecto), and the calls on the last lines of the
-- log, the identities of a process, its group, session, priority and limits, and the name of the
-- system (Practica1), with the program that calls the first of them.
--
-- The parts, each with the file that models it and how state and operations correspond:
--
-- * Practica2/linux-6.6.44/kernel/my_encrypt.c is Crypt/Fragment (DataFragment and the split of the
--   buffer), Crypt/Worker (perform_xor_operation), Crypt/Encrypt (handle_file_encryption and
--   my_encrypt, with one definition for each label of the goto chain) and Crypt/Threads (the code
--   that starts and joins the threads, interleaved with the threads, as a step relation on their
--   program counters and the shared buffer; load and store of a byte are two steps).
-- * Practica2/linux-6.6.44/kernel/my_decrypt.c is Crypt/Decrypt, translated by itself. Its child
--   Equivalence compares it with the encryption, and RoundTrip runs one after the other.
-- * Proyecto/linux-6.6.44/kernel/my_sys.c is Stats: one definition for each of the four system
--   calls on the memory, with the unsigned arithmetic of 64 bits written out, and `reply` for the
--   snprintf and copy_to_user at their ends. Its last call, procesos_info with
--   obtener_info_procesos, is Procesos: the loop over the processes, the text that grows in a
--   buffer by snprintf behind its strlen (Text/Buffer), and the release of both blocks.
--   Procesos/Json is a grammar of JSON texts and says, apart from the code, what the document
--   tells of a process; Procesos/Valid compares the document with it.
-- * Proyecto/Api/pruebas/ram_stats_module.c is RamModule: the figures of ram_stats_init and the
--   line that it prints, over the counters of Stats.
-- * Proyecto/Api/Backend/api_syscalls.c is Api: get_system_info, the five handlers and
--   request_handler under their own names. The server calls the system calls of Stats by number,
--   so a figure is followed from the counter of the kernel to the JSON of the response; and
--   Api/Processes puts procesos_info behind the server.
-- * "Practica2/Aplicaciones de usario" is App: ecrypt_app.c and dencrypt_app.c, whose text differs
--   in the number of the system call and in the messages.
-- * retrieve_last_five_logs of Practica1/linux-6.6.44/kernel/sys.c is Logs. The output buffer is the
--   list of the bytes written to it, and each pass over the log is the list of its lines.
-- * Practica1/llamadas/llamadas_al_sistema.c is Llamadas, with the two calls on the clocks: main runs
--   the model of the call on the log, and what it prints is a list of lines.
-- * setpgid, getpgid, getpgrp, getsid and setsid of kernel/sys.c are Sessions under their own names;
--   tasks and `struct pid` are numbers. Sessions/Documented is what is assumed of the kernel's
--   tables, in which the threads of a process share group and session; Sessions/Orderly is the
--   invariant, and Sessions/Calls runs sequences of calls.
-- * setpriority and getpriority of the same file are Priorities. The switch that both have in the
--   same words is `visit_which`, over what each does with a task; Priorities/Select says which
--   tasks the arguments stand for, what is assumed of nice values and which is the nearest one,
--   and Priorities/Visits compares the loops with it.
-- * sethostname, gethostname and setdomainname of the same file are Hostname.
-- * getrlimit, setrlimit and prlimit64 of the same file, over do_prlimit, are Limits; Limits/Calls
--   runs sequences of them. Kernel/Keeps is what such an invariant needs of a running call.
-- * The calls on user and group identities of the same file (setuid, setreuid, setresuid, setfsuid,
--   the calls that read them, and those on groups) are Creds, Creds/User and Creds/Group under
--   their own names. `Attempt` is a step that may jump to the label error. Creds/Rules says what
--   each call may do as a function on the identities, and the modules below User and Group compare
--   the calls with it; Creds/Documented is what is assumed of the credential functions.
-- * Kernel holds what the encryption uses of Linux (files, kmalloc, kernel_read, kthread_run, ...)
--   as a record of operations over a world, and Kernel/Machine the state of a running call: the
--   world, the resources it holds, and a fault for what crashes the kernel or frees the memory of
--   threads that run. Stats has its own
--   record of counters. Kernel/Quiet and `Served` name what is assumed of the kernel where a call
--   is followed to success: files are read and written at offset 0, and a write keeps what is
--   behind it, so that the output depends on the truncation by filp_open. Tests instantiates both
--   by concrete kernels.
-- * Text is snprintf and sscanf of the formats in use: plain characters, white space and %lu.
-- * Prelude passes on the names of the libraries and has the lemmas that the parts share.
--
-- Bounds: a loop over a buffer runs on the number of its rounds, `end_idx - start_idx`, and a call
-- to print a number has fuel for 20 digits, which are enough below 2 ^ 64. The encryption is
-- followed to success for files and keys of at most MAX_RW_COUNT bytes, which one kernel_read
-- takes whole, and as many threads as an int has room for. The
-- offset in the output of retrieve_last_five_logs, an int, is a natural number in Logs: a buffer of
-- 2 ^ 31 bytes is not considered.
--
-- Not modelled: printing, but for the line of the kernel module; the scheduler's fairness; the heap
-- behind cJSON, whose trees are values; the main function of the server; the rest of Practica1's
-- kernel/sys.c, which is that of Linux (times, resource usage, prctl, uname and sysinfo, and the
-- calls on limits for other word sizes),
-- and init/main.c with its message; headers, tables, the frontend and generated files.
pub mod Prelude
pub mod Kernel
pub mod Text
pub mod Stats
pub mod Api
pub mod App
pub mod Logs
pub mod Sessions
pub mod Llamadas
pub mod Priorities
pub mod Hostname
pub mod Limits
pub mod Procesos
pub mod RamModule
pub mod Creds
pub mod Crypt
mod Tests
