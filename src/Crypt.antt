-- ===== src/Crypt.antt =====
-- Practica2/linux-6.6.44/kernel/my_encrypt.c and my_decrypt.c: a file is encrypted or decrypted by
-- several kernel threads, each on its fragment of one shared buffer.
pub mod Fragment
pub mod Worker
pub mod Partition
pub mod Cipher
pub mod Threads
pub mod Encrypt
pub mod Decrypt
