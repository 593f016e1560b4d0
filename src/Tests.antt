-- ===== src/Tests.antt =====
-- Runs of the modelled code on concrete data, and the theorems at such data.
mod Sim
mod Crypt
mod Server
mod Sessions
mod Llamadas
mod Limits
mod Hostname
mod Priorities
mod Api
mod App
mod Logs
mod Creds
mod Procesos
mod RamModule
