-- ===== src/Tests.antt =====
-- Runs of the definitions on concrete packets, and the theorems at inputs that meet their hypotheses.
mod Names
mod Packets
mod Responses
mod Tables
mod Programs
mod Arguments
mod Services
mod Browsers
mod Configs
mod Servers
mod Replies
