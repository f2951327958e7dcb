-- ===== src/Host/Usage.antt =====
-- The text that the command line prints where it is called wrongly (main.go): usage.
use aetheria.Prelude.{[], ◌∷◌, ◌++◌, Bytes, codes}

-- The bytes of the text, with the end of the line that Fprintln adds
unfoldable pub usage_text : Bytes
usage_text =
    codes "aetheria "
    ++ 226 ∷ 128 ∷ 148 ∷ []
    ++ codes " lightweight Linux container runtime\n"
    ++ codes "\n"
    ++ codes "Usage:\n"
    ++ codes "  aetheria run                 Start the VM (daemon mode)\n"
    ++ codes "  aetheria create <distro>     Create a container (alpine, ubuntu, debian)\n"
    ++ codes "    [name]                       Container name (default: distro name)\n"
    ++ codes "    [--net=bridge|host|none]     Network mode (default: bridge)\n"
    ++ codes "    [-p host:container]          Port forwarding (repeatable)\n"
    ++ codes "    [--memory=512m]              Memory limit (e.g., 256m, 1g)\n"
    ++ codes "    [--cpus=1.0]                 CPU limit (e.g., 0.5, 2.0)\n"
    ++ codes "    [--pids=1024]                Max processes\n"
    ++ codes "    [--restart=always]           Auto-restart on VM boot\n"
    ++ codes "    [-e KEY=VALUE]               Environment variable (repeatable)\n"
    ++ codes "    [-v host:container[:ro]]     Volume mount (repeatable)\n"
    ++ codes "  aetheria start <name>        Start a container\n"
    ++ codes "  aetheria shell <name>        Open a shell in a running container\n"
    ++ codes "  aetheria exec <command>      Execute a command in the VM\n"
    ++ codes "  aetheria ls                  List containers\n"
    ++ codes "  aetheria logs <name> [-n N]  Show container logs (default: last 100 lines)\n"
    ++ codes "  aetheria rm <name>           Stop and remove a container\n"
    ++ codes "  aetheria pull <distro>       Download a distro rootfs image\n"
    ++ codes "  aetheria images              List available/cached images\n"
    ++ codes "  aetheria ping                Check if VM agent is running\n"
    ++ codes "  aetheria info                Show VM information\n"
    ++ codes "  aetheria stop                Shutdown the VM\n"
